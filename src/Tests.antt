-- ===== src/Tests.antt =====
-- A small queue, and the theorems at work on it.
pub mod Claims
pub mod Submission
pub mod Runs
pub mod Guard
pub mod Viewer
pub mod Access
pub mod Network
use job_applier.Base.{ℕ, String, Option, none, some, List, [], ◌∷◌, Bool, true, false, pos}
use job_applier.Queue.State.{JobState, ready, claimed, submit_intent, retry_wait}
use job_applier.Queue.Db.{AutomationJob, ApplicationAttempt, Application, RuntimeControl, Db}

abbrev pub job : String → JobState → Option String → Option ℕ → ℕ → AutomationJob
job id state owner expires generation = record {
  id = id;
  app_id = "app";
  adapter = "generic";
  adapter_version = "1.0.0";
  state = state;
  priority = pos 0;
  lease_owner = owner;
  lease_expires_at = expires;
  fencing_generation = generation;
  checkpoint = none;
  attempt_count = 1;
  max_retries = 3;
  next_retry_at = none;
  error_code = none;
  error_message = none;
  is_cancelled = false;
  created_at = 10;
  updated_at = 10;
}

abbrev pub waiting : AutomationJob
waiting = job "j1" ready none none 4

abbrev pub working : AutomationJob
working = job "j1" claimed (some "w1") (some 160) 5

abbrev pub submitting : AutomationJob
submitting = job "j1" submit_intent (some "w1") (some 160) 5

abbrev pub attempt : Option ℕ → ApplicationAttempt
attempt intent = record {
  id = "a1";
  job_id = "j1";
  app_id = "app";
  attempt_number = 1;
  profile_snapshot = "{}";
  resume_snapshot = "{}";
  artifact_revisions = "{}";
  submit_intent_at = intent;
  outcome = none;
  confirmation_evidence = none;
  error_details = none;
  is_ambiguous = false;
  created_at = 100;
  completed_at = none;
  started_at = some 100;
  worker_id = some "w1";
  lease_generation = some 5;
  browser_job_id = none;
  last_event_id = none;
  redacted_error_code = none;
}

abbrev pub application : Application
application = record {
  id = "app";
  status = "pending";
  notes = none;
  has_artifacts = true;
  job_url = some "https://boards.greenhouse.io/acme/jobs/1";
  updated_at = 10;
}

abbrev pub control : RuntimeControl
control = record {
  is_paused = false;
  is_stopped = false;
  manual_takeover_owner = none;
  manual_takeover_expires_at = none;
  is_waiting_for_code = false;
  pending_verification_code = none;
  browser_active = false;
  browser_url = none;
  browser_page_text = none;
  browser_is_closed = true;
  browser_updated_at = none;
  browser_job_id = none;
  browser_session_generation = none;
  browser_shutdown_generation = none;
  updated_at = 10;
}

abbrev pub queue : AutomationJob → List ApplicationAttempt → Db
queue j attempts = record {
  jobs = j ∷ [];
  attempts = attempts;
  applications = application ∷ [];
  control = control;
  events = [];
  statuses = [];
  notifications = [];
  outbox = [];
  answers = [];
  adapters = [];
  canaries = [];
  next_event_id = 1;
}
