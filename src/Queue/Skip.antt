-- ===== src/Queue/Skip.antt =====
-- `skip_job` (src/job_applier/automation/queue.py): a submission that may have gone out is kept as
-- ambiguous.
pub mod Moves
use job_applier.Base.{
  ℕ, ◌+◌, String, Bool, true, false, not, ◌&&◌, Option, none, some, ltb, ◌==◌, str_eq, is_none,
  non_empty, ◌<>◌, decimal, if◌then◌else◌, update_where, count_where, best_where,
}
use job_applier.Queue.State.{
  JobState, ready, skipped, ambiguous_submission, auth_required, mfa_required, captcha_required,
  unknown_question, site_changed, retry_wait, is_preparing, is_submitting,
}
use job_applier.Queue.Db.{
  Db, AutomationJob, ApplicationAttempt, Application, get_application, set_application, pause,
}
use job_applier.Queue.Events.{event, record_event, log_event}
use job_applier.Queue.Alert.{record_alert}
use job_applier.Queue.Named.{named_job, is_unchanged, write_row}

abbrev skip_message : String → String
skip_message reason = if non_empty reason then reason else "Skipped by operator"

-- A submission may have gone out: the outcome is unknown.
abbrev pub as_skip_ambiguous : String → ℕ → AutomationJob → AutomationJob
as_skip_ambiguous message now j = record j {
  state = ambiguous_submission;
  checkpoint = some "skip_ambiguous";
  lease_owner = none;
  lease_expires_at = none;
  fencing_generation = j.fencing_generation + 1;
  error_code = some "SKIP_DURING_SUBMISSION";
  error_message = some message;
  updated_at = now;
}

abbrev pub as_skipped : String → ℕ → AutomationJob → AutomationJob
as_skipped message now j = record j {
  state = skipped;
  is_cancelled = true;
  lease_owner = none;
  lease_expires_at = none;
  fencing_generation = j.fencing_generation + 1;
  error_message = some message;
  updated_at = now;
}

abbrev pub pre_submit_states : JobState → Bool
pre_submit_states ready = true
pre_submit_states retry_wait = true
pre_submit_states auth_required = true
pre_submit_states mfa_required = true
pre_submit_states captcha_required = true
pre_submit_states unknown_question = true
pre_submit_states site_changed = true
pre_submit_states s = is_preparing s

abbrev newer_attempt : ApplicationAttempt → ApplicationAttempt → Bool
newer_attempt a b = ltb b.created_at a.created_at

abbrev open_attempt : String → Db → Option ApplicationAttempt
open_attempt job_id db =
    best_where newer_attempt
      (λ (a : ApplicationAttempt). str_eq a.job_id job_id && is_none a.completed_at) db.attempts

abbrev id_of_attempt : Option ApplicationAttempt → Option String
id_of_attempt none = none
id_of_attempt (some a) = some a.id

close_open : String → String → Option ApplicationAttempt → ℕ → Db → Db
close_open job_id message none now db = db
close_open job_id message (some t) now db = record db {
  attempts =
      update_where (λ (a : ApplicationAttempt). str_eq a.id t.id && str_eq a.job_id job_id)
        (λ a. record a {
          outcome = some "ambiguous";
          error_details = some message;
          is_ambiguous = true;
          completed_at = some now;
        })
        db.attempts;
}

-- `stored` is the database after the UPDATE of the job.
abbrev skip_marked : AutomationJob → (message : String) → ℕ → Db → Db
skip_marked row message now stored =
    set_application row.app_id "ambiguous" (some message) now stored

-- The attempt is closed and the event recorded.
abbrev skip_event : AutomationJob → (message : String) → ℕ → Db → Db × ℕ
skip_event row message now stored =
    let marked = skip_marked row message now stored in
    let attempt = open_attempt row.id marked in
    record_event
      (record (event (some row.id) (some row.app_id) "job_skip_ambiguous" "CRITICAL"
        "ambiguous_submission") {
          attempt_id = id_of_attempt attempt;
          event_key = some ("skip_ambiguous:" <> row.id <> ":" <> decimal row.fencing_generation);
        })
      now (close_open row.id message attempt now marked)

skip_projection : AutomationJob → (message fresh : String) → ℕ → Db → Db
unfolding close_open
skip_projection row message fresh now stored = pause now (
    record_alert row.id (some row.app_id) (skip_event row message now stored).1 message fresh now
      (skip_event row message now stored).0)

abbrev skip_logged : AutomationJob → (reason : String) → ℕ → Db → Db
skip_logged row reason now stored =
    log_event (event (some row.id) (some row.app_id) "job_skipped" "INFO" "skipped") now
      (set_application row.app_id "skipped" (some reason) now stored)

skip_application : String → ℕ → Option Application → Db → Db × Bool
skip_application reason now none db = (db, false)
skip_application reason now (some a) db = (
  log_event (event none (some a.id) "job_skipped" "INFO" "skipped") now
      (set_application a.id "skipped" (some reason) now db),
  true,
)

-- A job that may have been submitted.
abbrev skip_submitting : AutomationJob → (reason fresh : String) → ℕ → Db → Db × Bool
skip_submitting row reason fresh now db =
    let message = skip_message reason in
    let stored = write_row row (as_skip_ambiguous message now) db in
    if count_where (is_unchanged row) db.jobs == 1
    then (skip_projection row message fresh now stored, true)
    else (stored, false)

-- A job that has not been submitted.
abbrev skip_waiting : AutomationJob → (reason : String) → ℕ → Db → Db × Bool
skip_waiting row reason now db =
    let stored = write_row row (as_skipped (skip_message reason) now) db in
    if count_where (is_unchanged row) db.jobs == 1
    then (skip_logged row reason now stored, true)
    else (stored, false)

skip_row : (job_id reason fresh : String) → ℕ → Option AutomationJob → Db → Db × Bool
unfolding skip_application skip_projection
skip_row job_id reason fresh now none db =
    skip_application reason now (get_application job_id db) db
skip_row job_id reason fresh now (some row) db =
    if is_submitting row.state
    then skip_submitting row reason fresh now db
    else if not (pre_submit_states row.state)
    then (db, false)
    else skip_waiting row reason now db

pub skip_job : (job_id reason fresh : String) (now : ℕ) → Db → Db × Bool
unfolding skip_row
skip_job job_id reason fresh now db = skip_row job_id reason fresh now (named_job job_id db) db
