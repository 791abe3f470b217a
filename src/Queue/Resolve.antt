-- ===== src/Queue/Resolve.antt =====
-- `resolve_job` (src/job_applier/automation/queue.py).
pub mod Moves
pub mod Outcome
use job_applier.Base.{
  ℕ, ◌+◌, String, Bool, true, false, not, ◌&&◌, ◌||◌, Option, none, some, List, [], ◌∷◌, ◌==◌,
  str_eq, non_empty, ◌<>◌, if◌then◌else◌, update_where, count_where,
}
use job_applier.Queue.State.{JobState, ready, skipped, ambiguous_submission, state_eq, is_exception}
use job_applier.Queue.Db.{
  Db, AutomationJob, Application, ApprovedAnswer, Result, ok, raised, value_error,
}
use job_applier.Queue.Events.{event, log_event}
use job_applier.Queue.Control.{is_wrong_owner}
use job_applier.Queue.Named.{named_job, is_unchanged, write_row}

-- The arguments of `resolve_job`. `normal_key` is `question_key.strip().lower()` and `trimmed` is
-- `answer_value.strip()`.
pub record Resolution : Type 0 where
  pub job_id : String
  pub resolution_type : String
  pub answer_value : String
  pub question_key : String
  pub normal_key : String
  pub trimmed : String
  pub approved_scope : String
  pub force : Bool
  pub expected_owner : Option String
  pub fresh : String

abbrev pub as_resolved : ℕ → AutomationJob → AutomationJob
as_resolved now j = record j {
  state = ready;
  is_cancelled = false;
  lease_owner = none;
  lease_expires_at = none;
  fencing_generation = j.fencing_generation + 1;
  error_code = none;
  error_message = none;
  next_retry_at = none;
  updated_at = now;
}

-- INSERT … ON CONFLICT(question_key, scope) DO UPDATE: a new revision of the answer
pub upsert_answer : ApprovedAnswer → List ApprovedAnswer → List ApprovedAnswer
upsert_answer new [] = new ∷ []
upsert_answer new (old ∷ rest) =
    if str_eq old.question_key new.question_key && str_eq old.scope new.scope
    then record old {
      answer_value = new.answer_value;
      revision = old.revision + 1;
      updated_at = new.updated_at;
    }
      ∷ rest
    else old ∷ upsert_answer new rest

pub save_answer : Resolution → ℕ → Db → Db
unfolding upsert_answer
save_answer r now db =
    if str_eq r.resolution_type "answer" && (non_empty r.question_key && non_empty r.answer_value)
    then record db {
      answers =
          upsert_answer
            (record {
              id = "ans_" <> r.fresh;
              question_key = r.normal_key;
              answer_value = r.trimmed;
              scope = r.approved_scope;
              revision = 1;
              created_at = now;
              updated_at = now;
            })
            db.answers;
    }
    else db

abbrev pub is_set_back : Application → Bool
is_set_back a =
    str_eq a.status "ambiguous" || (str_eq a.status "failed" || str_eq a.status "skipped")

-- UPDATE applications SET status = 'pending' WHERE id = ? AND status IN ('ambiguous', 'failed', 'skipped')
pub reopen_application : String → ℕ → Db → Db
reopen_application app_id now db =
    if non_empty app_id
    then record db {
      applications =
          update_where (λ (a : Application). str_eq a.id app_id && is_set_back a)
            (λ a. record a { status = "pending"; updated_at = now }) db.applications;
    }
    else db

abbrev pub is_resolvable : JobState → Bool
is_resolvable skipped = true
is_resolvable s = is_exception s

-- The part after the refusals.
abbrev resolve_known : Resolution → AutomationJob → ℕ → Db → Db × Result Bool
resolve_known r row now db =
    let resolved = write_row row (as_resolved now) db in
    if count_where (is_unchanged row) db.jobs == 1
    then (
      log_event (event (some row.id) (some row.app_id) "job_resolved" "INFO" "resolved") now
          (reopen_application row.app_id now (save_answer r now resolved)),
      ok true,
    )
    else (resolved, ok false)

resolve_row : Resolution → ℕ → ℕ → Option AutomationJob → Db → Db × Result Bool
unfolding save_answer reopen_application
resolve_row r now utc none db = (db, ok false)
resolve_row r now utc (some row) db =
    if is_wrong_owner r.expected_owner utc db
    then (db, raised value_error)
    else if state_eq row.state ambiguous_submission && not r.force
    then (db, raised value_error)
    else if not (is_resolvable row.state)
    then (db, raised value_error)
    else resolve_known r row now db

unfoldable pub resolve_job : Resolution → (now utc : ℕ) → Db → Db × Result Bool
unfolding resolve_row
resolve_job r now utc db = resolve_row r now utc (named_job r.job_id db) db
