-- ===== src/Queue/Requeue/Moves.antt =====
-- Requeueing is the move `reopen` of the job that waits for a login.
use job_applier.Base.{
  ℕ, ◌≡◌, refl, ◌&&◌, true, String, Option, none, some, arith, str_eq, find_where,
}
use job_applier.Queue.State.{auth_required, state_eq}
use job_applier.Queue.State.Laws.{state_eq→eq}
use job_applier.Queue.Db.{AutomationJob, Db}
use job_applier.Queue.Events.Frame.{record_event-Same}
use job_applier.Queue.Lifecycle.{AutoMove, reopen, Acts}
use job_applier.Queue.Lifecycle.Laws.{Acts-refl, Acts-update, Acts-if, one}
use job_applier.Queue.Control.{is_wrong_owner}
use job_applier.Queue.Requeue.{
  target_of, is_auth_paused, as_reopened, reopen_row, requeue_target, requeue_auth_required_job,
}

module _ (now : ℕ) (db : Db) where
  reopen_row-Acts : (o : Option AutomationJob) → Acts AutoMove db (reopen_row now o db).0
  unfolding reopen_row
  reopen_row-Acts none = Acts-refl db
  reopen_row-Acts (some row) = Acts-if db.control.is_stopped _ _ (Acts-refl db) (
      Acts-update (λ (j : AutomationJob). str_eq j.id row.id && state_eq j.state auth_required)
        (as_reopened now) (record_event-Same _ now _).jobs (λ j. refl)
        (λ j found may.
          one (reopen (state_eq→eq j.state auth_required (waits j may)) refl refl refl refl)))
    where
      waits :
          (j : AutomationJob)
          → (str_eq j.id row.id && state_eq j.state auth_required) ≡ true
          → state_eq j.state auth_required ≡ true
      waits j h = ground arith

  requeue_target-Acts : (o : Option String) → Acts AutoMove db (requeue_target now o db).0
  unfolding requeue_target
  requeue_target-Acts none = Acts-refl db
  requeue_target-Acts (some id) = reopen_row-Acts (find_where (is_auth_paused id db) db.jobs)

  pub requeue_auth_required_job-Acts :
      (job_id expected_owner : Option String) (utc : ℕ)
      → Acts AutoMove db (requeue_auth_required_job job_id expected_owner now utc db).0
  unfolding requeue_auth_required_job
  requeue_auth_required_job-Acts job_id expected_owner utc =
      Acts-if (is_wrong_owner expected_owner utc db) _ _ (Acts-refl db)
        (requeue_target-Acts (target_of job_id db))
