-- ===== src/Guard/Outcome/Stale.antt =====
-- What a worker reports of a submission after it lost the job.
use job_applier.Base.{ℕ, ◌≡◌, ap, ◌&&◌, not, Bool, false, String, IsKeyed, Bool-cases, inl, inr}
use job_applier.Queue.Db.{Db, job_id_of}
use job_applier.Queue.Failure.{lease_lost}
use job_applier.Queue.Failure.Stale.{handle_job_failure-stale}
use job_applier.Queue.Transition.Stale.{IsStale, transition_job-stale}
use job_applier.Guard.Outcome.{
  Evidence, Report, failure_of, to_applied, confirm, reconcile_submission_outcome, category_of,
  pause_after, handle_exception_pause_and_alert,
}

module _ (r : Report) (now utc : ℕ) (db : Db) (keyed : IsKeyed job_id_of db.jobs)
    (stale : IsStale db r.job_id r.generation) where
  reconcile-stale : (e : Evidence) → reconcile_submission_outcome r e now utc db ≡ (db, lease_lost)
  unfolding reconcile_submission_outcome
  reconcile-stale e = elim (Bool-cases (e.confirmed && not e.is_ambiguous)) [
    | inl sure ↦
        simp sure
          (ap (confirm r e now utc) (transition_job-stale (to_applied r) now db keyed stale))
    | inr unsure ↦ elim (Bool-cases e.is_ambiguous) [
      | inl vague ↦
          simp unsure
            (simp vague (handle_job_failure-stale (failure_of r _) now db keyed stale false _))
      | inr plain ↦
          simp unsure
            (simp plain (handle_job_failure-stale (failure_of r _) now db keyed stale false _))
    ]
  ]

  exception-stale :
      (is_pre_submit : Bool) (err_name message : String)
      → handle_exception_pause_and_alert r is_pre_submit err_name message now utc db
        ≡ (db, lease_lost)
  unfolding handle_exception_pause_and_alert
  exception-stale is_pre_submit err_name message =
      ap (pause_after (category_of is_pre_submit err_name) now utc) (
        handle_job_failure-stale (failure_of r message) now db keyed stale is_pre_submit
          (category_of is_pre_submit err_name))

  -- Once the job is past the worker's generation, what the worker reports changes nothing: no outcome of a
  -- submission, confirmed, ambiguous or rejected, is stored, and no exception pauses automation or raises an
  -- alert. The answer is that the lease is lost. It is assumed that no two jobs have one id.
  pub report-stale :
      (e : Evidence) (is_pre_submit : Bool) (err_name message : String)
      → (reconcile_submission_outcome r e now utc db ≡ (db, lease_lost))
        × (handle_exception_pause_and_alert r is_pre_submit err_name message now utc db
            ≡ (db, lease_lost))
  report-stale e is_pre_submit err_name message =
      (reconcile-stale e, exception-stale is_pre_submit err_name message)
