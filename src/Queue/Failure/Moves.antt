-- ===== src/Queue/Failure/Moves.antt =====
-- The failure arbiter moves at most the job of the worker that reports the failure.
use job_applier.Base.{
  ℕ, ◌≡◌, refl, Bool, true, false, String, Option, none, some, str_eq, ltb, filled, or_else,
  Bool-cases, inl, inr,
}
use job_applier.Queue.State.{JobState, value}
use job_applier.Queue.Db.{Db, get_job}
use job_applier.Queue.Events.Frame.{record_event-Same}
use job_applier.Queue.Lifecycle.{Move, auto, Acts}
use job_applier.Queue.Lifecycle.Laws.{Acts-same, Acts-trans, Acts-if, Acts-map}
use job_applier.Queue.Transition.Moves.{transition_job-Acts}
use job_applier.Queue.Complete.Moves.{complete_attempt-jobs}
use job_applier.Queue.Ambiguity.Moves.{mark_job_ambiguous-Acts}
use job_applier.Queue.Outbox.Moves.{enqueue_notification-jobs}
use job_applier.Queue.Failure.{
  Failure, Verdict, went_to, lease_lost, complete_if, conclude, fail_permanently, fail_ambiguously,
  exception_state?, pause_for_operator, schedule_retry, retry_or_fail, before_submit,
  handle_job_failure, reschedule_for_safety_gate, alert_operator, log_retry, log_gate, verdict_of,
  alert_text, alert_urgency, attempts_made, retries_allowed,
}

pub complete_if-jobs :
    (f : Failure) (outcome details : String) (now : ℕ) (db : Db)
    → (complete_if f outcome details now db).jobs ≡ db.jobs
complete_if-jobs f outcome details now db = elim (Bool-cases (filled f.attempt_id)) [
  | inl given ↦
      simp given
        (complete_attempt-jobs f.redact (or_else f.attempt_id "") outcome "" details false _ now db)
  | inr absent ↦ simp absent refl
]

module _ (f : Failure) (now : ℕ) (a : Db) where
  conclude-Acts :
      (outcome : String) (s : JobState) (x : Db × Bool)
      → Acts Move a x.0
      → Acts Move a (conclude f outcome s now x).0
  conclude-Acts outcome s (db, false) h = h
  conclude-Acts outcome s (db, true) h =
      Acts-trans h (Acts-same (complete_if-jobs f outcome f.error now db))

  fail_permanently-Acts : (code : String) → Acts Move a (fail_permanently f code now a).0
  unfolding fail_permanently
  fail_permanently-Acts code = conclude-Acts _ _ _ (transition_job-Acts _ now a)

  verdict_of-Acts : (x : Db × Bool) → Acts Move a x.0 → Acts Move a (verdict_of x).0
  verdict_of-Acts (db, false) h = h
  verdict_of-Acts (db, true) h = h

  fail_ambiguously-Acts : Acts Move a (fail_ambiguously f now a).0
  unfolding fail_ambiguously
  fail_ambiguously-Acts =
      verdict_of-Acts _ (Acts-map (λ p q m. auto m) (mark_job_ambiguous-Acts _ (λ s h. h) now a))

  alert_operator-Acts :
      (s : JobState) (x : Db × Verdict) → Acts Move a x.0 → Acts Move a (alert_operator f s now x).0
  alert_operator-Acts s (db, lease_lost) h = h
  alert_operator-Acts s (db, went_to t) h = Acts-trans h (
      Acts-same (
        enqueue_notification-jobs (value s) (alert_text f.job_id s) (alert_urgency s) none
          (some f.job_id) none none f.fresh f.fresh_item now db))

  pause_for_operator-Acts : (s : JobState) → Acts Move a (pause_for_operator f s now a).0
  unfolding pause_for_operator
  pause_for_operator-Acts s =
      alert_operator-Acts s _ (conclude-Acts _ _ _ (transition_job-Acts _ now a))

  log_retry-Acts : (x : Db × Verdict) → Acts Move a x.0 → Acts Move a (log_retry f now x).0
  log_retry-Acts (db, lease_lost) h = h
  log_retry-Acts (db, went_to s) h = Acts-trans h (Acts-same (record_event-Same _ now db).jobs)

  schedule_retry-Acts : (delay : ℕ) → Acts Move a (schedule_retry f delay now a).0
  unfolding schedule_retry
  schedule_retry-Acts delay = log_retry-Acts _ (conclude-Acts _ _ _ (transition_job-Acts _ now a))

  retry_or_fail-Acts : Acts Move a (retry_or_fail f now a).0
  unfolding retry_or_fail
  retry_or_fail-Acts =
      let job = get_job f.job_id a in
      Acts-if (ltb (attempts_made job) (retries_allowed job)) _ _ (schedule_retry-Acts _)
        (fail_permanently-Acts _)

  before_submit-Acts :
      (category : String) (s : Option JobState) → Acts Move a (before_submit f category s now a).0
  unfolding before_submit
  before_submit-Acts category (some s) = pause_for_operator-Acts s
  before_submit-Acts category none =
      Acts-if (str_eq category "failed_permanent") _ _ (fail_permanently-Acts _) retry_or_fail-Acts

  pub handle_job_failure-Acts :
      (is_pre_submit : Bool) (category : String)
      → Acts Move a (handle_job_failure f is_pre_submit category now a).0
  unfolding handle_job_failure
  handle_job_failure-Acts is_pre_submit category =
      Acts-if is_pre_submit _ _ (before_submit-Acts category (exception_state? category)) (
        Acts-if (str_eq category "ambiguous_submission") _ _ fail_ambiguously-Acts
          (fail_permanently-Acts _))

  log_gate-Acts : (x : Db × Verdict) → Acts Move a x.0 → Acts Move a (log_gate f now x).0
  log_gate-Acts (db, lease_lost) h = h
  log_gate-Acts (db, went_to s) h = Acts-trans h (Acts-same (record_event-Same _ now db).jobs)

  pub reschedule_for_safety_gate-Acts :
      (retry_delay_seconds : ℕ)
      → Acts Move a (reschedule_for_safety_gate f retry_delay_seconds now a).0
  unfolding reschedule_for_safety_gate
  reschedule_for_safety_gate-Acts retry_delay_seconds =
      log_gate-Acts _ (conclude-Acts _ _ _ (transition_job-Acts _ now a))
