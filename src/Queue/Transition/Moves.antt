-- ===== src/Queue/Transition/Moves.antt =====
-- A transition is one UPDATE of the jobs, and moves the job of the worker that owns the lease.
use job_applier.Base.{
  ℕ, ◌≡◌, refl, sym, ◌∙◌, Bool, true, false, String, Option, none, some, arith, update_where,
  count_where, update_where_none, ltb, Bool-cases, inl, inr, if◌then◌else◌, is_text→eq,
}
use job_applier.Queue.State.{JobState}
use job_applier.Queue.Db.{AutomationJob, Db, pause}
use job_applier.Queue.Events.Frame.{record_event-Same}
use job_applier.Queue.Lifecycle.{Move, work, Acts}
use job_applier.Queue.Lifecycle.Laws.{Acts-update, one}
use job_applier.Queue.Transition.{
  TransitionArgs, may_move, moved, status_after, project_application, after_move, move_rows,
  commit_move, transition_job,
}

project_application-jobs :
    (s : Option String) (app_id message : String) (now : ℕ) (db : Db)
    → (project_application s app_id message now db).jobs ≡ db.jobs
unfolding project_application
project_application-jobs none app_id message now db = refl
project_application-jobs (some s) app_id message now db = ground arith

after_move-jobs :
    (t : TransitionArgs) (s : Option JobState) (app_id : String) (now : ℕ) (db : Db)
    → (after_move t s app_id now db).jobs ≡ db.jobs
unfolding after_move
after_move-jobs t s app_id now db =
    (record_event-Same _ now _).jobs
    ∙ project_application-jobs (status_after t.to_state) app_id t.error_message now db

commit_move-jobs :
    (t : TransitionArgs) (now : ℕ) (db : Db)
    → (commit_move t now db).jobs ≡ update_where (may_move t now) (moved t now) db.jobs
unfolding commit_move
commit_move-jobs t now db = after_move-jobs t _ _ now _ ∙ pause_keeps t.pause_runtime_after_success
  where
    pause_keeps :
        (b : Bool)
        → (if b then pause now (move_rows t now db) else move_rows t now db).jobs
          ≡ (move_rows t now db).jobs
    pause_keeps true = refl
    pause_keeps false = refl

pub transition_job-jobs :
    (t : TransitionArgs) (now : ℕ) (db : Db)
    → (transition_job t now db).0.jobs ≡ update_where (may_move t now) (moved t now) db.jobs
unfolding transition_job
transition_job-jobs t now db = elim (Bool-cases (ltb 0 (count_where (may_move t now) db.jobs))) [
  | inl some_row ↦ simp some_row (commit_move-jobs t now db)
  | inr no_row ↦
      simp no_row (sym (update_where_none (may_move t now) (moved t now) db.jobs (ground arith)))
]

owned_by :
    (t : TransitionArgs) (now : ℕ) (j : AutomationJob)
    → may_move t now j ≡ true
    → (j.lease_owner ≡ some t.worker_id) × (j.is_cancelled ≡ false)
owned_by t now j h = ground (arith, is_text→eq j.lease_owner t.worker_id)

pub transition_job-Acts :
    (t : TransitionArgs) (now : ℕ) (db : Db) → Acts Move db (transition_job t now db).0
transition_job-Acts t now db =
    Acts-update (may_move t now) (moved t now) (transition_job-jobs t now db) (λ j. refl)
      (λ j found may. let o = owned_by t now j may in one (work t.worker_id o.0 o.1 refl refl o.1))
