-- ===== src/Queue/Db.antt =====
-- The rows and tables of the database that the queue keeps (src/job_applier/db.py), with the columns
-- that the queue reads or writes. A time is a number of seconds: the texts that the program stores
-- order as the times do. `none` is NULL.
use job_applier.Base.{
  ℕ, Bool, true, String, Option, List, ℤ, find_by, update_where, str_eq, coalesce,
}
use job_applier.Adapters.{AdapterControl, AdapterCanary}
use job_applier.Queue.State.{JobState}

-- automation_jobs
pub record AutomationJob : Type 0 where
  pub id : String
  pub app_id : String
  pub adapter : String
  pub adapter_version : String
  pub state : JobState
  pub priority : ℤ
  pub lease_owner : Option String
  pub lease_expires_at : Option ℕ
  pub fencing_generation : ℕ
  pub checkpoint : Option String
  pub attempt_count : ℕ
  pub max_retries : ℕ
  pub next_retry_at : Option ℕ
  pub error_code : Option String
  pub error_message : Option String
  pub is_cancelled : Bool
  pub created_at : ℕ
  pub updated_at : ℕ

-- application_attempts
pub record ApplicationAttempt : Type 0 where
  pub id : String
  pub job_id : String
  pub app_id : String
  pub attempt_number : ℕ
  pub profile_snapshot : String
  pub resume_snapshot : String
  pub artifact_revisions : String
  pub submit_intent_at : Option ℕ
  pub outcome : Option String
  pub confirmation_evidence : Option String
  pub error_details : Option String
  pub is_ambiguous : Bool
  pub created_at : ℕ
  pub completed_at : Option ℕ
  pub started_at : Option ℕ
  pub worker_id : Option String
  pub lease_generation : Option ℕ
  pub browser_job_id : Option String
  pub last_event_id : Option ℕ
  pub redacted_error_code : Option String

-- applications
pub record Application : Type 0 where
  pub id : String
  pub status : String
  pub notes : Option String
  pub has_artifacts : Bool
  pub job_url : Option String
  pub updated_at : ℕ

-- The row of runtime_control, which `init_db` creates.
pub record RuntimeControl : Type 0 where
  pub is_paused : Bool
  pub is_stopped : Bool
  pub manual_takeover_owner : Option String
  pub manual_takeover_expires_at : Option ℕ
  pub is_waiting_for_code : Bool
  pub pending_verification_code : Option String
  pub browser_active : Bool
  pub browser_url : Option String
  pub browser_page_text : Option String
  pub browser_is_closed : Bool
  pub browser_updated_at : Option ℕ
  pub browser_job_id : Option String
  pub browser_session_generation : Option ℕ
  pub browser_shutdown_generation : Option ℕ
  pub updated_at : ℕ

-- automation_events. The message and the details, redacted texts for the operator, are left out.
pub record Event : Type 0 where
  pub id : ℕ
  pub job_id : Option String
  pub app_id : Option String
  pub event_type : String
  pub level : String
  pub step : String
  pub created_at : ℕ
  pub attempt_id : Option String
  pub event_key : Option String
  pub attempt_number : Option ℕ
  pub worker_id : Option String
  pub lease_generation : Option ℕ
  pub browser_job_id : Option String
  pub from_state : Option JobState
  pub to_state : Option JobState
  pub outcome_code : Option String

-- automation_job_status
pub record JobStatus : Type 0 where
  pub job_id : String
  pub app_id : String
  pub attempt_id : Option String
  pub attempt_number : Option ℕ
  pub state : JobState
  pub step : String
  pub outcome : Option String
  pub last_event_id : Option ℕ
  pub worker_id : Option String
  pub lease_generation : Option ℕ
  pub browser_job_id : Option String
  pub submit_intent_at : Option ℕ
  pub started_at : Option ℕ
  pub completed_at : Option ℕ
  pub updated_at : ℕ

-- notifications, without the texts that only the dashboard shows
pub record Notification : Type 0 where
  pub notification_id : String
  pub job_id : Option String
  pub app_id : Option String
  pub event_id : Option ℕ
  pub category : String
  pub severity : String
  pub message : String
  pub acknowledged : Bool
  pub created_at : ℕ

-- notification_outbox, without the title, the link and the payload
pub record OutboxItem : Type 0 where
  pub id : String
  pub dedup_key : Option String
  pub status : String
  pub category : String
  pub urgency : String
  pub message : String
  pub attempt_count : ℕ
  pub last_error : Option String
  pub created_at : ℕ
  pub sent_at : Option ℕ
  pub next_retry_at : Option ℕ

-- approved_answers
pub record ApprovedAnswer : Type 0 where
  pub id : String
  pub question_key : String
  pub answer_value : String
  pub scope : String
  pub revision : ℕ
  pub created_at : ℕ
  pub updated_at : ℕ

pub record Db : Type 0 where
  pub jobs : List AutomationJob
  pub attempts : List ApplicationAttempt
  pub applications : List Application
  pub control : RuntimeControl
  pub events : List Event
  pub statuses : List JobStatus
  pub notifications : List Notification
  pub outbox : List OutboxItem
  pub answers : List ApprovedAnswer
  pub adapters : List AdapterControl
  pub canaries : List AdapterCanary
  -- the AUTOINCREMENT counter of automation_events
  pub next_event_id : ℕ

abbrev pub job_id_of : AutomationJob → String
job_id_of j = j.id

abbrev pub attempt_id_of : ApplicationAttempt → String
attempt_id_of a = a.id

abbrev pub application_id_of : Application → String
application_id_of a = a.id

-- SELECT * FROM automation_jobs WHERE id = ?
abbrev pub get_job : String → Db → Option AutomationJob
get_job id db = find_by job_id_of id db.jobs

abbrev pub get_attempt : String → Db → Option ApplicationAttempt
get_attempt id db = find_by attempt_id_of id db.attempts

abbrev pub get_application : String → Db → Option Application
get_application id db = find_by application_id_of id db.applications

-- What an operation returns, or the exception that it raises.
pub data Error : Type 0 where
  missing_artifact integrity_error runtime_error value_error permission_error : Error

pub data Result {ℓ} (A : Type ℓ) : Type ℓ where
  ok : A → Result A
  raised : Error → Result A

-- UPDATE applications SET status, notes, updated_at WHERE id = ?
abbrev pub set_application : String → String → Option String → ℕ → Db → Db
set_application app_id status notes now db = record db {
  applications =
      update_where (λ (a : Application). str_eq a.id app_id)
        (λ a. record a { status = status; notes = coalesce notes a.notes; updated_at = now })
        db.applications;
}

-- UPDATE runtime_control SET is_paused = 1, updated_at WHERE id = 1
abbrev pub pause : ℕ → Db → Db
pause now db = record db { control = record (db.control) { is_paused = true; updated_at = now } }
