-- ===== src/Queue/Requeue.antt =====
-- `requeue_auth_required_job` (src/job_applier/automation/queue.py).
pub mod Moves
use job_applier.Base.{
  ℕ, ◌+◌, String, Bool, true, false, not, ◌&&◌, Option, none, some, max, str_eq, is_none, filled,
  coalesce_or, if◌then◌else◌, update_where, find_where,
}
use job_applier.Queue.State.{ready, auth_required, state_eq}
use job_applier.Queue.Db.{Db, AutomationJob, get_application}
use job_applier.Queue.Events.{event, log_event}
use job_applier.Queue.Control.{set_control, is_wrong_owner}

-- The answers of `requeue_auth_required_job`.
pub data Requeue : Type 0 where
  started : (job_id app_id : String) → Requeue
  takeover_owner_required auth_job_target_required auth_job_not_found emergency_stop_active :
      Requeue

-- `job_id` or else the job that owns the browser
abbrev target_of : Option String → Db → Option String
target_of none db = if filled db.control.browser_job_id then db.control.browser_job_id else none
target_of (some id) db = some id

-- JOIN applications, WHERE j.id = ? AND j.state = 'auth_required'
abbrev pub is_auth_paused : String → Db → AutomationJob → Bool
is_auth_paused id db j =
    str_eq j.id id
    && (state_eq j.state auth_required && not (is_none (get_application j.app_id db)))

abbrev pub as_reopened : ℕ → AutomationJob → AutomationJob
as_reopened now j = record j {
  state = ready;
  lease_owner = none;
  lease_expires_at = none;
  error_code = none;
  error_message = none;
  next_retry_at = none;
  checkpoint = some "auth_retry_requested";
  updated_at = now;
}

-- The browser is handed to the generation that the next claim will have.
hand_browser : AutomationJob → ℕ → Db → Db
hand_browser row now db =
    set_control
      (record (db.control) {
        is_paused = false;
        manual_takeover_owner = none;
        manual_takeover_expires_at = none;
        is_waiting_for_code = false;
        pending_verification_code = none;
        browser_active = false;
        browser_url = some "";
        browser_page_text = some "";
        browser_is_closed = true;
        browser_shutdown_generation = some (
            max
              (max (coalesce_or db.control.browser_shutdown_generation 0)
                (coalesce_or db.control.browser_session_generation 0))
              (row.fencing_generation + 1));
        browser_updated_at = some now;
        browser_job_id = some row.id;
        browser_session_generation = some (row.fencing_generation + 1);
        updated_at = now;
      })
      db

reopen_row : ℕ → Option AutomationJob → Db → Db × Requeue
unfolding hand_browser
reopen_row now none db = (db, auth_job_not_found)
reopen_row now (some row) db =
    let reopened = record db {
      jobs =
          update_where (λ (j : AutomationJob). str_eq j.id row.id && state_eq j.state auth_required)
            (as_reopened now) db.jobs;
    } in
    if db.control.is_stopped then (db, emergency_stop_active) else (
      hand_browser row now (
          log_event
            (event (some row.id) (some row.app_id) "auth_retry_requested" "WARN" "auth_retry") now
            reopened),
      started row.id row.app_id,
    )

requeue_target : ℕ → Option String → Db → Db × Requeue
unfolding reopen_row
requeue_target now none db = (db, auth_job_target_required)
requeue_target now (some id) db = reopen_row now (find_where (is_auth_paused id db) db.jobs) db

pub requeue_auth_required_job :
    (job_id expected_owner : Option String) (now utc : ℕ) → Db → Db × Requeue
unfolding requeue_target
requeue_auth_required_job job_id expected_owner now utc db =
    if is_wrong_owner expected_owner utc db
    then (db, takeover_owner_required)
    else requeue_target now (target_of job_id db) db
