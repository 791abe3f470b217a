-- ===== src/Queue/Complete/Moves.antt =====
-- Completing an attempt leaves the jobs alone.
use job_applier.Base.{
  ℕ, ◌≡◌, refl, Bool, String, Option, none, some, count_where, ltb, Bool-cases, inl, inr,
}
use job_applier.Queue.Db.{ApplicationAttempt, Db}
use job_applier.Queue.Complete.{Expected, may_complete, complete_status, complete_attempt}

complete_status-jobs :
    (a : Option ApplicationAttempt) (outcome : String) (now : ℕ) (db : Db)
    → (complete_status a outcome now db).jobs ≡ db.jobs
unfolding complete_status
complete_status-jobs none outcome now db = refl
complete_status-jobs (some a) outcome now db = refl

pub complete_attempt-jobs :
    (redact : String → String) (attempt_id outcome evidence details : String) (is_ambiguous : Bool)
    (expected : Expected) (now : ℕ) (db : Db)
    → (complete_attempt redact attempt_id outcome evidence details is_ambiguous expected now
        db).0.jobs
      ≡ db.jobs
unfolding complete_attempt
complete_attempt-jobs redact attempt_id outcome evidence details is_ambiguous expected now db =
    elim (Bool-cases (ltb 0 (count_where (may_complete attempt_id expected db) db.attempts))) [
      | inl written ↦ simp written (complete_status-jobs _ outcome now _)
      | inr none_fits ↦ simp none_fits refl
    ]
