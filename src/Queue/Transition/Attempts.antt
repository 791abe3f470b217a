-- ===== src/Queue/Transition/Attempts.antt =====
-- A transition leaves the attempts and their submit intents alone.
use job_applier.Base.{
  ℕ, ◌≡◌, refl, Bool, true, false, String, Option, none, some, arith, if◌then◌else◌, count_where,
  ltb,
}
use job_applier.Queue.State.{JobState}
use job_applier.Queue.Db.{Db, pause}
use job_applier.Queue.Events.Attempts.{
  KeepsIntents, KeepsIntents-same, KeepsIntents-trans, record_event-KeepsIntents,
}
use job_applier.Queue.Transition.{
  TransitionArgs, may_move, status_after, project_application, after_move, move_rows, commit_move,
  transition_job,
}

pub project_application-attempts :
    (s : Option String) (app_id message : String) (now : ℕ) (db : Db)
    → (project_application s app_id message now db).attempts ≡ db.attempts
unfolding project_application
project_application-attempts none app_id message now db = refl
project_application-attempts (some s) app_id message now db = ground arith

after_move-KeepsIntents :
    (t : TransitionArgs) (s : Option JobState) (app_id : String) (now : ℕ) (db : Db)
    → KeepsIntents db (after_move t s app_id now db)
unfolding after_move
after_move-KeepsIntents t s app_id now db =
    KeepsIntents-trans
      (KeepsIntents-same
        (project_application-attempts (status_after t.to_state) app_id t.error_message now db))
      (record_event-KeepsIntents _ now _)

commit_move-KeepsIntents :
    (t : TransitionArgs) (now : ℕ) (db : Db) → KeepsIntents db (commit_move t now db)
unfolding commit_move
commit_move-KeepsIntents t now db =
    KeepsIntents-trans (KeepsIntents-same (pause_keeps t.pause_runtime_after_success))
      (after_move-KeepsIntents t _ _ now _)
  where
    pause_keeps :
        (b : Bool)
        → (if b then pause now (move_rows t now db) else move_rows t now db).attempts ≡ db.attempts
    pause_keeps true = refl
    pause_keeps false = refl

pub transition_job-KeepsIntents :
    (t : TransitionArgs) (now : ℕ) (db : Db) → KeepsIntents db (transition_job t now db).0
unfolding transition_job
transition_job-KeepsIntents t now db =
    branch (ltb 0 (count_where (may_move t now) db.jobs)) (commit_move t now db, true) (db, false)
      (commit_move-KeepsIntents t now db) (KeepsIntents-same refl)
  where
    branch :
        (b : Bool) (x y : Db × Bool)
        → KeepsIntents db x.0
        → KeepsIntents db y.0
        → KeepsIntents db (if b then x else y).0
    branch true x y h k = h
    branch false x y h k = k
