-- ===== src/Queue/Events.antt =====
-- The event log and the projection of the job status: `record_event`, `_append_event_on_conn` and
-- `_project_event` (src/job_applier/automation/queue.py), on the caller's connection.
pub mod Frame
pub mod Attempts
pub mod Repeats
pub mod Steady
pub mod Unnamed
use job_applier.Base.{
  ℕ, ◌+◌, String, Bool, true, false, ◌&&◌, Option, none, some, List, [], ◌∷◌, ◌++◌, ◌==◌, is_some,
  is_text, str_eq, filled, or_else, coalesce, coalesce_or, if◌then◌else◌, find_where, find_by,
  update_where,
}
use job_applier.Queue.State.{JobState}
use job_applier.Queue.Db.{Db, Event, JobStatus, AutomationJob, ApplicationAttempt}

-- The keyword arguments of `record_event`.
pub record EventArgs : Type 0 where
  pub job_id : Option String
  pub app_id : Option String
  pub event_type : String
  pub level : String
  pub step : String
  pub attempt_id : Option String
  pub event_key : Option String
  pub attempt_number : Option ℕ
  pub worker_id : Option String
  pub lease_generation : Option ℕ
  pub browser_job_id : Option String
  pub from_state : Option JobState
  pub to_state : Option JobState
  pub outcome_code : Option String
  -- What the driver's `lastrowid` answers after an INSERT that was ignored.
  pub stale_rowid : ℕ

-- A call that gives the four positional arguments and the step.
abbrev pub event : Option String → Option String → String → String → String → EventArgs
event job_id app_id event_type level step = record {
  job_id = job_id;
  app_id = app_id;
  event_type = event_type;
  level = level;
  step = step;
  attempt_id = none;
  event_key = none;
  attempt_number = none;
  worker_id = none;
  lease_generation = none;
  browser_job_id = none;
  from_state = none;
  to_state = none;
  outcome_code = none;
  stale_rowid = 0;
}

-- SQL's `a IS b` on nullable texts
abbrev pub same_text : Option String → Option String → Bool
same_text none none = true
same_text none (some b) = false
same_text (some a) b = is_text b a

abbrev pub attempt_of : Option String → Db → Option ApplicationAttempt
attempt_of none db = none
attempt_of (some a) db = find_by (λ (r : ApplicationAttempt). r.id) a db.attempts

abbrev attempt_time : (ApplicationAttempt → Option ℕ) → Option ApplicationAttempt → Option ℕ
attempt_time f none = none
attempt_time f (some a) = f a

-- The row that the projection inserts.
status_row : EventArgs → ℕ → ℕ → AutomationJob → Db → JobStatus
status_row e event_id now job db = record {
  job_id = job.id;
  app_id = or_else e.app_id job.app_id;
  attempt_id = e.attempt_id;
  attempt_number = e.attempt_number;
  state = coalesce_or e.to_state job.state;
  step = e.step;
  outcome = e.outcome_code;
  last_event_id = some event_id;
  worker_id = e.worker_id;
  lease_generation = e.lease_generation;
  browser_job_id = e.browser_job_id;
  submit_intent_at = attempt_time (λ a. a.submit_intent_at) (attempt_of e.attempt_id db);
  started_at =
      attempt_time (λ a. coalesce a.started_at (some a.created_at)) (attempt_of e.attempt_id db);
  completed_at = attempt_time (λ a. a.completed_at) (attempt_of e.attempt_id db);
  updated_at = now;
}

-- ON CONFLICT(job_id) DO UPDATE: what the event does not say stays.
merge_status : JobStatus → JobStatus → JobStatus
merge_status new old = record old {
  app_id = new.app_id;
  attempt_id = coalesce new.attempt_id old.attempt_id;
  attempt_number = coalesce new.attempt_number old.attempt_number;
  state = new.state;
  step = new.step;
  outcome = coalesce new.outcome old.outcome;
  last_event_id = new.last_event_id;
  worker_id = coalesce new.worker_id old.worker_id;
  lease_generation = coalesce new.lease_generation old.lease_generation;
  browser_job_id = coalesce new.browser_job_id old.browser_job_id;
  submit_intent_at = coalesce new.submit_intent_at old.submit_intent_at;
  started_at = coalesce new.started_at old.started_at;
  completed_at = coalesce new.completed_at old.completed_at;
  updated_at = new.updated_at;
}

upsert_status : JobStatus → List JobStatus → List JobStatus
unfolding merge_status
upsert_status new [] = new ∷ []
upsert_status new (old ∷ rest) =
    if str_eq old.job_id new.job_id
    then merge_status new old ∷ rest
    else old ∷ upsert_status new rest

-- The UPDATE of the attempt that the event names.
stamp_attempt : EventArgs → ℕ → ApplicationAttempt → ApplicationAttempt
stamp_attempt e event_id a = record a {
  last_event_id = some event_id;
  worker_id = coalesce e.worker_id a.worker_id;
  lease_generation = coalesce e.lease_generation a.lease_generation;
  browser_job_id = coalesce e.browser_job_id a.browser_job_id;
}

project_onto : EventArgs → ℕ → ℕ → Option AutomationJob → Db → Db
unfolding status_row upsert_status stamp_attempt
project_onto e event_id now none db = db
project_onto e event_id now (some job) db = record db {
  statuses = upsert_status (status_row e event_id now job db) db.statuses;
  attempts =
      if filled e.attempt_id
      then update_where (λ a. is_text e.attempt_id a.id) (stamp_attempt e event_id) db.attempts
      else db.attempts;
}

pub project_event : EventArgs → ℕ → ℕ → Db → Db
unfolding project_onto
project_event e event_id now db =
    if filled e.job_id
    then project_onto e event_id now
        (find_by (λ (j : AutomationJob). j.id) (or_else e.job_id "") db.jobs) db
    else db

event_row : EventArgs → ℕ → ℕ → Event
event_row e id now = record {
  id = id;
  job_id = e.job_id;
  app_id = e.app_id;
  event_type = e.event_type;
  level = e.level;
  step = e.step;
  created_at = now;
  attempt_id = e.attempt_id;
  event_key = e.event_key;
  attempt_number = e.attempt_number;
  worker_id = e.worker_id;
  lease_generation = e.lease_generation;
  browser_job_id = e.browser_job_id;
  from_state = e.from_state;
  to_state = e.to_state;
  outcome_code = e.outcome_code;
}

-- `WHERE job_id IS ? AND event_key = ?`
abbrev pub is_repeat : EventArgs → Event → Bool
is_repeat e r =
    same_text r.job_id e.job_id && (is_some e.event_key && same_text r.event_key e.event_key)

-- The unique index on (attempt_id, event_key), where neither is NULL.
abbrev pub clashes : EventArgs → Event → Bool
clashes e r =
    (is_some e.attempt_id && is_some e.event_key)
    && (same_text r.attempt_id e.attempt_id && same_text r.event_key e.event_key)

-- INSERT OR IGNORE, the id of the row, and the projection.
insert_event : EventArgs → ℕ → Option Event → Db → Db × ℕ
unfolding event_row project_event
insert_event e now none db = (
  project_event e db.next_event_id now (record db {
    events = db.events ++ event_row e db.next_event_id now ∷ [];
    next_event_id = db.next_event_id + 1;
  }),
  db.next_event_id,
)
insert_event e now (some clash) db =
    let id : ℕ =
      if e.stale_rowid == 0 && (filled e.attempt_id && filled e.event_key)
      then clash.id
      else e.stale_rowid in
    (project_event e id now db, id)

append_unless : EventArgs → ℕ → Option Event → Db → Db × ℕ
unfolding insert_event
append_unless e now (some old) db = (db, old.id)
append_unless e now none db = insert_event e now (find_where (clashes e) db.events) db

-- The new database and the event's id.
unfoldable pub record_event : EventArgs → ℕ → Db → Db × ℕ
unfolding append_unless
record_event e now db = append_unless e now (find_where (is_repeat e) db.events) db

-- An event whose id the caller does not use.
abbrev pub log_event : EventArgs → ℕ → Db → Db
log_event e now db = (record_event e now db).0
