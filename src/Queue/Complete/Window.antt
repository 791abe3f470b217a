-- ===== src/Queue/Complete/Window.antt =====
-- What a completion adds to the submissions of a window.
use job_applier.Base.{
  ℕ, ◌+◌, ◌-◌, ◌*◌, ◌≡◌, ◌≤◌, refl, Bool, String, Option, none, some, arith, IsKeyed, ltb,
  count_where, count_where-keyed, Bool-cases, inl, inr,
}
use job_applier.Queue.Db.{Db, ApplicationAttempt, attempt_id_of}
use job_applier.Queue.Complete.{
  Expected, may_complete, completed, complete_attempt, complete_status,
}
use job_applier.Guard.Limits.{get_submissions_in_window}
use job_applier.Guard.Limits.Window.{count-update}

pub complete_status-attempts :
    (a : Option ApplicationAttempt) (outcome : String) (now : ℕ) (db : Db)
    → (complete_status a outcome now db).attempts ≡ db.attempts
unfolding complete_status
complete_status-attempts none outcome now db = refl
complete_status-attempts (some a) outcome now db = refl

at_most_one :
    (id : String) (x : Expected) (db : Db)
    → IsKeyed attempt_id_of db.attempts
    → count_where (may_complete id x db) db.attempts ≤ 1
at_most_one id x db keyed = ground (
  arith,
  count_where-keyed attempt_id_of id (may_complete id x db) (λ a h. ground arith) db.attempts keyed,
)

-- One completion is one submission at most.
pub complete_attempt-window :
    (redact : String → String) (id outcome evidence details : String) (vague : Bool) (x : Expected)
    (now hours at : ℕ) (db : Db)
    → IsKeyed attempt_id_of db.attempts
    → get_submissions_in_window hours at
        (complete_attempt redact id outcome evidence details vague x now db).0
      ≤ get_submissions_in_window hours at db + 1
unfolding complete_attempt
complete_attempt-window redact id outcome evidence details vague x now hours at db keyed =
    elim (Bool-cases (ltb 0 (count_where (may_complete id x db) db.attempts))) [
      | inl some_row ↦ simp some_row (
          rw (complete_status-attempts _ outcome now _) (
            ground (
              arith,
              at_most_one id x db keyed,
              count-update (at - hours * 3600) (may_complete id x db)
                  (completed redact outcome evidence details vague now) db.attempts,
            )))
      | inr no_row ↦ simp no_row (omega arith)
    ]
