-- ===== src/Queue/Enqueue.antt =====
-- `enqueue_job` (src/job_applier/automation/queue.py). The random part of the new id, the clock and
-- the answer of the artifact check, which reads the disk, are arguments.
pub mod Moves
pub mod Idempotent
use job_applier.Base.{
  ℕ, String, Bool, false, not, ◌&&◌, Option, none, some, [], ◌∷◌, ◌++◌, ltb, str_eq, ◌<>◌, is_some,
  if◌then◌else◌, best_where, update_where, ℤ,
}
use job_applier.Queue.State.{ready, is_terminal}
use job_applier.Queue.Db.{
  Db, AutomationJob, Application, Result, ok, raised, missing_artifact, integrity_error, get_job,
  get_application,
}
use job_applier.Queue.Events.{event, log_event}

-- ORDER BY created_at DESC
abbrev pub newer : AutomationJob → AutomationJob → Bool
newer a b = ltb b.created_at a.created_at

-- An unfinished job of the application.
abbrev pub is_open : String → AutomationJob → Bool
is_open app_id j = str_eq j.app_id app_id && not (is_terminal j.state)

pub new_job : String → String → String → ℤ → ℕ → ℕ → AutomationJob
new_job id app_id adapter priority max_retries now = record {
  id = id;
  app_id = app_id;
  adapter = adapter;
  adapter_version = "1.0.0";
  state = ready;
  priority = priority;
  lease_owner = none;
  lease_expires_at = none;
  fencing_generation = 0;
  checkpoint = none;
  attempt_count = 0;
  max_retries = max_retries;
  next_retry_at = none;
  error_code = none;
  error_message = none;
  is_cancelled = false;
  created_at = now;
  updated_at = now;
}

-- INSERT INTO automation_jobs: the id must be new, and the application must be there.
insert_job : AutomationJob → ℕ → Db → Db × Result AutomationJob
insert_job job now db =
    if is_some (get_job job.id db)
    then (db, raised integrity_error)
    else if is_some (get_application job.app_id db)
    then (
      log_event (event (some job.id) (some job.app_id) "job_enqueued" "INFO" "enqueue") now
          (record db { jobs = db.jobs ++ job ∷ [] }),
      ok job,
    )
    else (db, raised integrity_error)

open_or_insert : Option AutomationJob → AutomationJob → ℕ → Db → Db × Result AutomationJob
unfolding insert_job
open_or_insert (some existing) job now db = (db, ok existing)
open_or_insert none job now db = insert_job job now db

-- UPDATE applications SET has_artifacts = 0, status = 'missing_artifacts'
mark_missing : String → ℕ → Db → Db
mark_missing app_id now db = record db {
  applications =
      update_where (λ (a : Application). str_eq a.id app_id)
        (λ a. record a { has_artifacts = false; status = "missing_artifacts"; updated_at = now })
        db.applications;
}

-- The part under the queue lock.
pub enqueue_checked :
    (app_id adapter : String) (priority : ℤ) (max_retries : ℕ) (fresh : String) (now : ℕ)
    → Db
    → Db × Result AutomationJob
unfolding open_or_insert new_job
enqueue_checked app_id adapter priority max_retries fresh now db =
    open_or_insert (best_where newer (is_open app_id) db.jobs)
      (new_job ("job_" <> app_id <> "_" <> fresh) app_id adapter priority max_retries now) now db

unfoldable pub enqueue_job :
    (app_id adapter : String) (priority : ℤ) (max_retries : ℕ) (verify_artifacts has_art : Bool)
    (fresh : String) (now : ℕ)
    → Db
    → Db × Result AutomationJob
unfolding enqueue_checked mark_missing
enqueue_job app_id adapter priority max_retries verify_artifacts has_art fresh now db =
    if verify_artifacts && not has_art
    then (
      log_event (event none (some app_id) "artifacts_missing" "WARN" "enqueue_blocked") now
          (mark_missing app_id now db),
      raised missing_artifact,
    )
    else enqueue_checked app_id adapter priority max_retries fresh now db
