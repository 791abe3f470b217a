-- ===== src/Queue/Failure.antt =====
-- The failure arbiter (src/job_applier/automation/queue.py): `handle_job_failure` and
-- `reschedule_for_safety_gate`. Each runs at one reading of the clock. The transition, the
-- completion of the attempt and the alert are transactions of their own in the program; here nothing comes
-- in between.
pub mod Moves
pub mod Stale
pub mod Verdicts
use job_applier.Base.{
  ℕ, ◌+◌, String, Bool, true, false, Option, none, some, ltb, ◌==◌, str_eq, filled, or_else, clip,
  ◌<>◌, decimal, if◌then◌else◌,
}
use job_applier.Queue.State.{
  JobState, failed_permanent, retry_wait, ambiguous_submission, auth_required, mfa_required,
  captcha_required, unknown_question, site_changed, value,
}
use job_applier.Queue.Db.{Db, AutomationJob, get_job}
use job_applier.Queue.Events.{event, log_event}
use job_applier.Queue.Transition.{TransitionArgs, transition, transition_job}
use job_applier.Queue.Complete.{complete_attempt}
use job_applier.Queue.Ambiguity.{ambiguity, mark_job_ambiguous}
use job_applier.Queue.Outbox.{enqueue_notification}

-- A failure as the worker reports it. `redact`, `fresh` and `fresh_item` are the redaction of texts
-- and the random parts of the ids of the alerts.
pub record Failure : Type 0 where
  pub job_id : String
  pub worker_id : String
  pub generation : ℕ
  pub attempt_id : Option String
  pub error : String
  pub redact : String → String
  pub fresh : String
  pub fresh_item : String

-- What the arbiter returns: the state that the job went to, or that the lease was lost.
pub data Verdict : Type 0 where
  went_to : JobState → Verdict
  lease_lost : Verdict

-- `if attempt_id: complete_attempt(…)` with the expected job, worker and generation
abbrev pub complete_if : Failure → (outcome details : String) → ℕ → Db → Db
complete_if f outcome details now db =
    if filled f.attempt_id
    then (complete_attempt f.redact (or_else f.attempt_id "") outcome "" details false
        (record {
          job_id = some f.job_id;
          worker_id = some f.worker_id;
          generation = some f.generation;
        })
        now db).0
    else db

-- A transition under a live lease, with the error's code and text.
abbrev pub guarded : Failure → JobState → String → TransitionArgs
guarded f to_state code = record (transition f.job_id f.worker_id f.generation to_state) {
  error_code = code;
  error_message = f.error;
  require_live_lease = true;
}

abbrev pub conclude : Failure → String → JobState → ℕ → Db × Bool → Db × Verdict
conclude f outcome to_state now (db, false) = (db, lease_lost)
conclude f outcome to_state now (db, true) =
    (complete_if f outcome f.error now db, went_to to_state)

-- Transition to failed_permanent, then complete the attempt.
pub fail_permanently : Failure → String → ℕ → Db → Db × Verdict
fail_permanently f code now db =
    conclude f "failed_permanent" failed_permanent now
      (transition_job (guarded f failed_permanent code) now db)

abbrev verdict_of : Db × Bool → Db × Verdict
verdict_of (db, false) = (db, lease_lost)
verdict_of (db, true) = (db, went_to ambiguous_submission)

pub fail_ambiguously : Failure → ℕ → Db → Db × Verdict
fail_ambiguously f now db = verdict_of (
    mark_job_ambiguous
      (record (ambiguity f.job_id
        ("Job attempt "
          <> clip 8 f.job_id
          <> " encountered an uncertain outcome after submission was triggered. Automatic retry is disabled to prevent duplicate submissions.")
        f.fresh) {
          expected_worker_id = some f.worker_id;
          expected_generation = some f.generation;
          attempt_id = f.attempt_id;
          checkpoint = "post_submit_ambiguous";
          error_code = "POST_SUBMIT_UNCERTAIN";
          operation_key =
              some ("post_submit_ambiguous:" <> f.job_id <> ":" <> decimal f.generation);
          require_live_lease = true;
        })
      now db)

-- `error_category in EXCEPTION_STATES`, with the state that the text names
pub exception_state? : String → Option JobState
exception_state? c =
    if str_eq c "auth_required"
    then some auth_required
    else if str_eq c "mfa_required"
    then some mfa_required
    else if str_eq c "captcha_required"
    then some captcha_required
    else if str_eq c "unknown_question"
    then some unknown_question
    else if str_eq c "site_changed"
    then some site_changed
    else if str_eq c "ambiguous_submission"
    then some ambiguous_submission
    else none

-- `error_category.upper()`
abbrev pub upper_code : JobState → String
upper_code auth_required = "AUTH_REQUIRED"
upper_code mfa_required = "MFA_REQUIRED"
upper_code captcha_required = "CAPTCHA_REQUIRED"
upper_code unknown_question = "UNKNOWN_QUESTION"
upper_code site_changed = "SITE_CHANGED"
upper_code ambiguous_submission = "AMBIGUOUS_SUBMISSION"
upper_code _ = ""

abbrev pub alert_text : String → JobState → String
alert_text job_id unknown_question =
    "Job attempt "
    <> clip 8 job_id
    <> " paused: Unknown screening question requires approved answer."
alert_text job_id captcha_required =
    "Job attempt "
    <> clip 8 job_id
    <> " paused: CAPTCHA detected. Operator assistance required via browser view."
alert_text job_id mfa_required =
    "Job attempt " <> clip 8 job_id <> " paused: MFA or verification code required."
alert_text job_id _ = "Job attempt " <> clip 8 job_id <> " paused for operator review."

abbrev pub alert_urgency : JobState → String
alert_urgency unknown_question = "normal"
alert_urgency _ = "high"

abbrev alert_operator : Failure → JobState → ℕ → Db × Verdict → Db × Verdict
alert_operator f s now (db, lease_lost) = (db, lease_lost)
alert_operator f s now (db, went_to t) = (
  enqueue_notification (value s) (alert_text f.job_id s) (alert_urgency s) none (some f.job_id) none
      none f.fresh f.fresh_item now db,
  went_to t,
)

pub pause_for_operator : Failure → JobState → ℕ → Db → Db × Verdict
pause_for_operator f s now db =
    alert_operator f s now
      (conclude f (value s) s now (transition_job (guarded f s (upper_code s)) now db))

-- `backoffs[min(attempt_count - 1, 2)]`; the index -1 of an attempt count of 0 is the last one.
pub backoff : ℕ → ℕ
backoff attempt_count =
    if attempt_count == 0
    then 600
    else if attempt_count == 1
    then 30
    else if attempt_count == 2
    then 120
    else 600

abbrev pub attempts_made : Option AutomationJob → ℕ
attempts_made none = 1
attempts_made (some j) = j.attempt_count

abbrev pub retries_allowed : Option AutomationJob → ℕ
retries_allowed none = 3
retries_allowed (some j) = j.max_retries

abbrev log_retry : Failure → ℕ → Db × Verdict → Db × Verdict
log_retry f now (db, lease_lost) = (db, lease_lost)
log_retry f now (db, went_to s) =
    (log_event (event (some f.job_id) none "retry_scheduled" "WARN" "retry_wait") now db, went_to s)

pub schedule_retry : Failure → (delay now : ℕ) → Db → Db × Verdict
schedule_retry f delay now db = log_retry f now (
    conclude f "retry_wait" retry_wait now (
      transition_job
        (record (guarded f retry_wait "PRE_SUBMIT_TRANSIENT") {
          checkpoint = "retry_wait";
          next_retry_at = some (now + delay);
        })
        now db))

-- A transient failure before the submission.
pub retry_or_fail : Failure → ℕ → Db → Db × Verdict
unfolding schedule_retry fail_permanently backoff
retry_or_fail f now db =
    let job = get_job f.job_id db in
    if ltb (attempts_made job) (retries_allowed job)
    then schedule_retry f (backoff (attempts_made job)) now db
    else fail_permanently f "MAX_RETRIES_EXCEEDED" now db

before_submit : Failure → String → Option JobState → ℕ → Db → Db × Verdict
unfolding pause_for_operator fail_permanently retry_or_fail
before_submit f category (some s) now db = pause_for_operator f s now db
before_submit f category none now db =
    if str_eq category "failed_permanent"
    then fail_permanently f "FAILED_PERMANENT" now db
    else retry_or_fail f now db

unfoldable pub handle_job_failure :
    Failure → (is_pre_submit : Bool) (error_category : String) (now : ℕ) → Db → Db × Verdict
unfolding before_submit fail_permanently fail_ambiguously exception_state?
handle_job_failure f is_pre_submit category now db =
    if is_pre_submit
    then before_submit f category (exception_state? category) now db
    else if str_eq category "ambiguous_submission"
    then fail_ambiguously f now db
    else fail_permanently f "SUBMISSION_REJECTED" now db

-- `f.error` is the reason of the gate.
abbrev log_gate : Failure → ℕ → Db × Verdict → Db × Verdict
log_gate f now (db, lease_lost) = (db, lease_lost)
log_gate f now (db, went_to s) = (
  log_event (event (some f.job_id) none "safety_gate_wait" "WARN" "retry_wait") now db,
  went_to s,
)

pub reschedule_for_safety_gate : Failure → (retry_delay_seconds now : ℕ) → Db → Db × Verdict
reschedule_for_safety_gate f retry_delay_seconds now db = log_gate f now (
    conclude f "safety_gate_wait" retry_wait now (
      transition_job
        (record (guarded f retry_wait "SAFETY_GATE_WAIT") {
          checkpoint = "safety_gate_wait";
          next_retry_at = some (now + retry_delay_seconds);
          decrement_attempt_count = true;
        })
        now db))
