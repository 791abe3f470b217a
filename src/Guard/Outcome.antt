-- ===== src/Guard/Outcome.antt =====
-- What the guard does around the click (src/job_applier/automation/safety_guard.py):
-- `ensure_submit_permit`, `execute_submit_intent`, `reconcile_submission_outcome` and
-- `handle_exception_pause_and_alert`. Each runs at one reading of each clock; `utc` is SQLite's.
-- The transactions of a report follow one another with nothing in between.
pub mod Stale
pub mod Cap
pub mod Stored
use job_applier.Base.{
  ℕ, String, Bool, true, false, not, ◌&&◌, ◌||◌, Option, none, some, str_eq, contains, ◌<>◌,
  if◌then◌else◌,
}
use job_applier.Queue.State.{JobState, applied}
use job_applier.Queue.Db.{Db, Result, ok, raised, runtime_error, set_application}
use job_applier.Queue.Events.{event, log_event}
use job_applier.Queue.Transition.{TransitionArgs, transition, transition_job}
use job_applier.Queue.Complete.{Expected, complete_attempt}
use job_applier.Queue.Intent.{record_submit_intent, has_submit_permit, submit_lease_margin_seconds}
use job_applier.Queue.Fence.{ClickArgs, begin_submit_click_fence}
use job_applier.Queue.Failure.{Failure, Verdict, went_to, lease_lost, handle_job_failure}
use job_applier.Queue.Control.{set_runtime_pause}
use job_applier.Guard.Limits.{record_submission_timestamp}
use job_applier.Guard.Safety.{GuardError, fencing_ownership_lost}

-- ConfirmationEvidence, as far as the guard reads it; `json` is its text as JSON.
pub record Evidence : Type 0 where
  pub confirmed : Bool
  pub is_ambiguous : Bool
  pub confirmation_text : String
  pub json : String

-- The worker's report. `redact`, `fresh` and `fresh_item` are as in `Failure`, and `lower` is `str.lower`.
pub record Report : Type 0 where
  pub job_id : String
  pub app_id : String
  pub attempt_id : Option String
  pub worker_id : String
  pub generation : ℕ
  pub adapter_name : String
  pub lower : String → String
  pub redact : String → String
  pub fresh : String
  pub fresh_item : String

abbrev pub failure_of : Report → String → Failure
failure_of r error = record {
  job_id = r.job_id;
  worker_id = r.worker_id;
  generation = r.generation;
  attempt_id = r.attempt_id;
  error = error;
  redact = r.redact;
  fresh = r.fresh;
  fresh_item = r.fresh_item;
}

abbrev pub expected_of : Report → Expected
expected_of r = record {
  job_id = some r.job_id;
  worker_id = some r.worker_id;
  generation = some r.generation;
}

-- The transition of a confirmed submission.
abbrev pub to_applied : Report → TransitionArgs
to_applied r = record (transition r.job_id r.worker_id r.generation applied) {
  checkpoint = "completed";
  require_live_lease = true;
}

-- `attempt_id` is a text here.
abbrev pub attempt_text : Option String → String
attempt_text none = ""
attempt_text (some id) = id

-- The attempt is completed under the worker's generation.
abbrev pub complete_applied : Report → Evidence → ℕ → Db → Db
complete_applied r e now db =
    (complete_attempt r.redact (attempt_text r.attempt_id) "applied" e.json "" false (expected_of r)
      now db).0

-- The projections of a confirmed submission.
pub project_applied : Report → Evidence → (now utc : ℕ) → Db → Db
project_applied r e now utc db =
    log_event (event (some r.job_id) (some r.app_id) "application_applied" "SUCCESS" "applied") now
      (set_application r.app_id "applied" none utc
        (record_submission_timestamp (r.lower r.adapter_name) now (complete_applied r e now db)))

abbrev pub confirm : Report → Evidence → (now utc : ℕ) → Db × Bool → Db × Verdict
confirm r e now utc (db, false) = (db, lease_lost)
confirm r e now utc (db, true) = (project_applied r e now utc db, went_to applied)

pub reconcile_submission_outcome : Report → Evidence → (now utc : ℕ) → Db → Db × Verdict
reconcile_submission_outcome r e now utc db =
    if e.confirmed && not e.is_ambiguous
    then confirm r e now utc (transition_job (to_applied r) now db)
    else if e.is_ambiguous
    then handle_job_failure (failure_of r ("Ambiguous submission outcome: " <> e.confirmation_text))
        false "ambiguous_submission" now db
    else handle_job_failure (failure_of r ("Submission unconfirmed: " <> e.confirmation_text)) false
        "submission_rejected" now db

-- The category of an exception, by the name of its class.
pub category_of : (is_pre_submit : Bool) (err_name : String) → String
category_of is_pre_submit n =
    if not is_pre_submit
    then "ambiguous_submission"
    else if contains n "Captcha"
    then "captcha_required"
    else if contains n "MFA" || contains n "Verification"
    then "mfa_required"
    else if contains n "Authentication" || contains n "Login"
    then "auth_required"
    else if contains n "UnknownQuestion" || contains n "SensitiveQuestion"
    then "unknown_question"
    else if contains n "Ambiguous"
    then "ambiguous_submission"
    else if contains n "Takeover" || contains n "Paused"
    then "runtime_paused"
    else "site_changed"

-- `severity == "critical" and category != "ambiguous_submission"`
abbrev pub pauses : String → Bool
pauses category =
    str_eq category "captcha_required"
    || (str_eq category "mfa_required"
        || (str_eq category "auth_required" || str_eq category "unknown_question"))

abbrev pub pause_after : String → (now utc : ℕ) → Db × Verdict → Db × Verdict
pause_after category now utc (db, lease_lost) = (db, lease_lost)
pause_after category now utc (db, went_to s) =
    (if pauses category then (set_runtime_pause true none now utc db).0 else db, went_to s)

pub handle_exception_pause_and_alert :
    Report → (is_pre_submit : Bool) (err_name message : String) (now utc : ℕ) → Db → Db × Verdict
unfolding category_of
handle_exception_pause_and_alert r is_pre_submit err_name message now utc db =
    let category = category_of is_pre_submit err_name in
    pause_after category now utc
      (handle_job_failure (failure_of r message) is_pre_submit category now db)

abbrev pub or_lost : Result (Unit {0}) → Option GuardError
or_lost (ok u) = none
or_lost (raised e) = some fencing_ownership_lost

-- The error that is raised, or `none`: the fence is held, or no fence was asked for.
pub ensure_submit_permit :
    (job_id worker_id : String) (generation : ℕ) (attempt_id : Option String) (now utc : ℕ)
    → Db
    → Option GuardError
ensure_submit_permit job_id worker_id generation attempt_id now utc db =
    if has_submit_permit job_id worker_id generation submit_lease_margin_seconds now db
    then elim attempt_id [
      | none ↦ none
      | some id ↦ or_lost (
          begin_submit_click_fence
            (record {
              job_id = job_id;
              attempt_id = id;
              worker_id = worker_id;
              generation = generation;
            })
            now utc db)
    ]
    else some fencing_ownership_lost

abbrev pub or_abort : Db × Bool → Db × Result (Unit {0})
or_abort (db, true) = (db, ok tt)
or_abort (db, false) = (db, raised runtime_error)

pub execute_submit_intent :
    (job_id attempt_id worker_id : String) (generation now : ℕ) → Db → Db × Result (Unit {0})
execute_submit_intent job_id attempt_id worker_id generation now db =
    or_abort (record_submit_intent attempt_id job_id worker_id generation now db)
