-- ===== src/Queue/Cancel.antt =====
-- `cancel_job` (src/job_applier/automation/queue.py).
pub mod Moves
use job_applier.Base.{
  ℕ, String, Bool, true, false, Option, none, some, ltb, str_eq, non_empty, keep_or, if◌then◌else◌,
  update_where, count_where,
}
use job_applier.Queue.State.{
  JobState, ready, cancelled, auth_required, mfa_required, captcha_required, unknown_question,
  retry_wait,
}
use job_applier.Queue.Db.{Db, AutomationJob, Application, get_application, set_application}
use job_applier.Queue.Events.{event, log_event}
use job_applier.Queue.Named.{named_job}

abbrev text_or_none : String → Option String
text_or_none s = if non_empty s then some s else none

-- The states in which `cancel_job` ends the job at once.
abbrev pub is_waiting : JobState → Bool
is_waiting ready = true
is_waiting retry_wait = true
is_waiting unknown_question = true
is_waiting auth_required = true
is_waiting mfa_required = true
is_waiting captcha_required = true
is_waiting _ = false

-- The SET of `cancel_job`.
abbrev pub as_cancelled : String → ℕ → AutomationJob → AutomationJob
as_cancelled reason now j = record j {
  is_cancelled = true;
  state = if is_waiting j.state then cancelled else j.state;
  error_message = keep_or reason j.error_message;
  updated_at = now;
}

abbrev cancel_rows : String → String → ℕ → Db → Db
cancel_rows id reason now db = record db {
  jobs = update_where (λ (r : AutomationJob). str_eq r.id id) (as_cancelled reason now) db.jobs;
}

abbrev log_cancel : Option String → String → ℕ → Db → Db
log_cancel job_id app_id now db =
    log_event (event job_id (some app_id) "job_cancelled" "WARN" "cancelled") now db

cancel_application : String → String → ℕ → Option Application → Db → Db × Bool
cancel_application app_id reason now none db = (db, false)
cancel_application app_id reason now (some a) db =
    (log_cancel none a.id now (set_application a.id "cancelled" (text_or_none reason) now db), true)

cancel_row : String → String → ℕ → Option AutomationJob → Db → Db × Bool
unfolding cancel_application
cancel_row key reason now none db = cancel_application key reason now (get_application key db) db
cancel_row key reason now (some j) db =
    let cancelled_db = cancel_rows j.id reason now db in
    let projected =
      if non_empty j.app_id
      then set_application j.app_id "cancelled" (text_or_none reason) now cancelled_db
      else cancelled_db in
    if ltb 0 (count_where (λ (r : AutomationJob). str_eq r.id j.id) db.jobs)
    then (log_cancel (some j.id) j.app_id now projected, true)
    else (cancelled_db, false)

pub cancel_job : (job_id reason : String) (now : ℕ) → Db → Db × Bool
unfolding cancel_row
cancel_job job_id reason now db = cancel_row job_id reason now (named_job job_id db) db
