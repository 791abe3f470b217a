-- ===== src/Queue/Attempt.antt =====
-- `create_attempt` (src/job_applier/automation/queue.py).
pub mod Moves
use job_applier.Base.{
  ℕ, ◌+◌, String, false, ◌&&◌, Option, none, some, List, [], ◌∷◌, ◌++◌, max, str_eq, is_some,
  is_none, ◌<>◌, if◌then◌else◌,
}
use job_applier.Queue.Db.{
  Db, ApplicationAttempt, Result, ok, raised, integrity_error, get_job, get_attempt,
  get_application,
}

-- COALESCE(MAX(attempt_number), 0) over the job's attempts
abbrev pub last_number : String → List ApplicationAttempt → ℕ
last_number job_id [] = 0
last_number job_id (a ∷ rest) =
    if str_eq a.job_id job_id
    then max a.attempt_number (last_number job_id rest)
    else last_number job_id rest

-- The arguments of `create_attempt`; the snapshots are the texts that are stored.
pub record AttemptArgs : Type 0 where
  pub job_id : String
  pub app_id : String
  pub profile_snapshot : String
  pub resume_snapshot : String
  pub artifact_revisions : String
  pub worker_id : Option String
  pub lease_generation : Option ℕ
  pub browser_job_id : Option String

new_attempt : AttemptArgs → String → ℕ → ℕ → ApplicationAttempt
new_attempt c id number now = record {
  id = id;
  job_id = c.job_id;
  app_id = c.app_id;
  attempt_number = number;
  profile_snapshot = c.profile_snapshot;
  resume_snapshot = c.resume_snapshot;
  artifact_revisions = c.artifact_revisions;
  submit_intent_at = none;
  outcome = none;
  confirmation_evidence = none;
  error_details = none;
  is_ambiguous = false;
  created_at = now;
  completed_at = none;
  started_at = some now;
  worker_id = c.worker_id;
  lease_generation = c.lease_generation;
  browser_job_id = c.browser_job_id;
  last_event_id = none;
  redacted_error_code = none;
}

insert_attempt : ApplicationAttempt → Db → Db × Result ApplicationAttempt
insert_attempt a db =
    if is_none (get_attempt a.id db)
      && (is_some (get_job a.job_id db) && is_some (get_application a.app_id db))
    then (record db { attempts = db.attempts ++ a ∷ [] }, ok a)
    else (db, raised integrity_error)

pub create_attempt : AttemptArgs → (fresh : String) (now : ℕ) → Db → Db × Result ApplicationAttempt
unfolding insert_attempt new_attempt
create_attempt c fresh now db =
    insert_attempt
      (new_attempt c ("att_" <> c.job_id <> "_" <> fresh) (last_number c.job_id db.attempts + 1)
        now)
      db
