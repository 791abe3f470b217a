-- ===== src/Queue/Failure/Stale.antt =====
-- A failure that a worker reports under a generation that is over changes nothing.
use job_applier.Base.{
  ℕ, ◌+◌, ◌≡◌, refl, ap, Bool, true, false, String, Option, none, some, IsKeyed, str_eq, Bool-cases,
  inl, inr, ltb,
}
use job_applier.Queue.State.{JobState, failed_permanent, retry_wait}
use job_applier.Queue.Db.{Db, get_job, job_id_of}
use job_applier.Queue.Ambiguity.Stale.{mark_job_ambiguous-stale}
use job_applier.Queue.Transition.Stale.{IsStale, transition_job-stale}
use job_applier.Queue.Failure.{
  Failure, lease_lost, guarded, fail_permanently, verdict_of, fail_ambiguously, exception_state?,
  pause_for_operator, before_submit, backoff, attempts_made, retries_allowed, schedule_retry,
  retry_or_fail, handle_job_failure, upper_code,
}

module _ (f : Failure) (now : ℕ) (db : Db) (keyed : IsKeyed job_id_of db.jobs)
    (stale : IsStale db f.job_id f.generation) where
  fail_permanently-stale : (code : String) → fail_permanently f code now db ≡ (db, lease_lost)
  unfolding fail_permanently
  fail_permanently-stale code =
      rw (transition_job-stale (guarded f failed_permanent code) now db keyed stale)

  fail_ambiguously-stale : fail_ambiguously f now db ≡ (db, lease_lost)
  unfolding fail_ambiguously
  fail_ambiguously-stale =
      ap verdict_of (mark_job_ambiguous-stale _ f.generation now db refl keyed stale refl)

  pause_for_operator-stale : (s : JobState) → pause_for_operator f s now db ≡ (db, lease_lost)
  unfolding pause_for_operator
  pause_for_operator-stale s =
      rw (transition_job-stale (guarded f s (upper_code s)) now db keyed stale)

  schedule_retry-stale : (delay : ℕ) → schedule_retry f delay now db ≡ (db, lease_lost)
  unfolding schedule_retry
  schedule_retry-stale delay = rw (
      transition_job-stale
        (record (guarded f retry_wait "PRE_SUBMIT_TRANSIENT") {
          checkpoint = "retry_wait";
          next_retry_at = some (now + delay);
        })
        now db keyed stale)

  retry_or_fail-stale : retry_or_fail f now db ≡ (db, lease_lost)
  unfolding retry_or_fail
  retry_or_fail-stale =
      elim (Bool-cases
        (ltb (attempts_made (get_job f.job_id db)) (retries_allowed (get_job f.job_id db)))) [
          | inl e ↦ simp e (schedule_retry-stale (backoff (attempts_made (get_job f.job_id db))))
          | inr e ↦ simp e (fail_permanently-stale "MAX_RETRIES_EXCEEDED")
        ]

  before_submit-stale :
      (category : String) (o : Option JobState)
      → before_submit f category o now db ≡ (db, lease_lost)
  unfolding before_submit
  before_submit-stale category (some s) = pause_for_operator-stale s
  before_submit-stale category none = elim (Bool-cases (str_eq category "failed_permanent")) [
    | inl e ↦ simp e (fail_permanently-stale "FAILED_PERMANENT")
    | inr e ↦ simp e retry_or_fail-stale
  ]

  pub handle_job_failure-stale :
      (is_pre_submit : Bool) (category : String)
      → handle_job_failure f is_pre_submit category now db ≡ (db, lease_lost)
  unfolding handle_job_failure
  handle_job_failure-stale true category = before_submit-stale category (exception_state? category)
  handle_job_failure-stale false category =
      elim (Bool-cases (str_eq category "ambiguous_submission")) [
        | inl e ↦ simp e fail_ambiguously-stale
        | inr e ↦ simp e (fail_permanently-stale "SUBMISSION_REJECTED")
      ]
