-- ===== src/Queue/Transition/Unnamed.antt =====
-- A transition leaves the attempts as they are: its event names none.
use job_applier.Base.{
  ℕ, ◌≡◌, refl, ◌∙◌, Bool, true, false, String, Option, if◌then◌else◌, count_where, ltb, Bool-cases,
  inl, inr,
}
use job_applier.Queue.State.{JobState}
use job_applier.Queue.Db.{Db, pause}
use job_applier.Queue.Events.Unnamed.{record_event-attempts}
use job_applier.Queue.Transition.Attempts.{project_application-attempts}
use job_applier.Queue.Transition.{
  TransitionArgs, may_move, status_after, after_move, move_rows, commit_move, transition_job,
}

after_move-attempts :
    (t : TransitionArgs) (s : Option JobState) (app_id : String) (now : ℕ) (db : Db)
    → (after_move t s app_id now db).attempts ≡ db.attempts
unfolding after_move
after_move-attempts t s app_id now db =
    record_event-attempts _ now refl _
    ∙ project_application-attempts (status_after t.to_state) app_id t.error_message now db

commit_move-attempts :
    (t : TransitionArgs) (now : ℕ) (db : Db) → (commit_move t now db).attempts ≡ db.attempts
unfolding commit_move
commit_move-attempts t now db =
    after_move-attempts t _ _ now _ ∙ pause_keeps t.pause_runtime_after_success
  where
    pause_keeps :
        (b : Bool)
        → (if b then pause now (move_rows t now db) else move_rows t now db).attempts ≡ db.attempts
    pause_keeps true = refl
    pause_keeps false = refl

pub transition_job-attempts :
    (t : TransitionArgs) (now : ℕ) (db : Db) → (transition_job t now db).0.attempts ≡ db.attempts
unfolding transition_job
transition_job-attempts t now db =
    elim (Bool-cases (ltb 0 (count_where (may_move t now) db.jobs))) [
      | inl some_row ↦ simp some_row (commit_move-attempts t now db)
      | inr no_row ↦ simp no_row refl
    ]
