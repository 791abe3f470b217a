-- ===== src/Queue/Transition/Steady.antt =====
-- A transition leaves the results of the attempts alone.
use job_applier.Base.{
  ℕ, ◌≡◌, refl, Bool, true, false, String, Option, if◌then◌else◌, count_where, ltb,
}
use job_applier.Queue.State.{JobState}
use job_applier.Queue.Db.{Db, pause}
use job_applier.Queue.Events.Steady.{IsSteady, IsSteady-same, IsSteady-trans, record_event-IsSteady}
use job_applier.Queue.Transition.Attempts.{project_application-attempts}
use job_applier.Queue.Transition.{
  TransitionArgs, may_move, status_after, after_move, move_rows, commit_move, transition_job,
}

after_move-IsSteady :
    (t : TransitionArgs) (s : Option JobState) (app_id : String) (now : ℕ) (db : Db)
    → IsSteady db (after_move t s app_id now db)
unfolding after_move
after_move-IsSteady t s app_id now db =
    IsSteady-trans
      (IsSteady-same
        (project_application-attempts (status_after t.to_state) app_id t.error_message now db))
      (record_event-IsSteady _ now _)

commit_move-IsSteady : (t : TransitionArgs) (now : ℕ) (db : Db) → IsSteady db (commit_move t now db)
unfolding commit_move
commit_move-IsSteady t now db =
    IsSteady-trans (IsSteady-same (pause_keeps t.pause_runtime_after_success))
      (after_move-IsSteady t _ _ now _)
  where
    pause_keeps :
        (b : Bool)
        → (if b then pause now (move_rows t now db) else move_rows t now db).attempts ≡ db.attempts
    pause_keeps true = refl
    pause_keeps false = refl

pub transition_job-IsSteady :
    (t : TransitionArgs) (now : ℕ) (db : Db) → IsSteady db (transition_job t now db).0
unfolding transition_job
transition_job-IsSteady t now db =
    branch (ltb 0 (count_where (may_move t now) db.jobs)) (commit_move t now db, true) (db, false)
      (commit_move-IsSteady t now db) (IsSteady-same refl)
  where
    branch :
        (b : Bool) (x y : Db × Bool)
        → IsSteady db x.0
        → IsSteady db y.0
        → IsSteady db (if b then x else y).0
    branch true x y h k = h
    branch false x y h k = k
