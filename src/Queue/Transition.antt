-- ===== src/Queue/Transition.antt =====
-- `transition_job` (src/job_applier/automation/queue.py): the guarded change of state that every
-- worker makes, with its effects on the application, the pause flag and the event log.
pub mod Moves
pub mod Stale
pub mod Outcome
pub mod Attempts
pub mod Steady
pub mod Unnamed
use job_applier.Base.{
  ℕ, ◌+◌, ◌-◌, String, Bool, true, false, not, ◌&&◌, ◌||◌, Option, none, some, ltb, ◌==◌, str_eq,
  is_text, non_empty, keep_or, after, if◌then◌else◌, update_where, count_where, find_where,
  coalesce,
}
use job_applier.Queue.State.{
  JobState, failed_permanent, cancelled, ambiguous_submission, is_terminal, is_exception, value,
}
use job_applier.Queue.Db.{Db, AutomationJob, get_job, set_application, pause}
use job_applier.Queue.Events.{event, log_event}

-- The arguments of `transition_job`. Its defaults are in `transition`.
pub record TransitionArgs : Type 0 where
  pub job_id : String
  pub worker_id : String
  pub generation : ℕ
  pub to_state : JobState
  pub checkpoint : String
  pub error_code : String
  pub error_message : String
  pub require_live_lease : Bool
  pub required_lease_margin_seconds : ℕ
  pub pause_runtime_after_success : Bool
  pub next_retry_at : Option ℕ
  pub decrement_attempt_count : Bool

abbrev pub transition : String → String → ℕ → JobState → TransitionArgs
transition job_id worker_id generation to_state = record {
  job_id = job_id;
  worker_id = worker_id;
  generation = generation;
  to_state = to_state;
  checkpoint = "";
  error_code = "";
  error_message = "";
  require_live_lease = false;
  required_lease_margin_seconds = 0;
  pause_runtime_after_success = false;
  next_retry_at = none;
  decrement_attempt_count = false;
}

-- WHERE id = ? AND lease_owner = ? AND fencing_generation = ?
abbrev pub is_owned : String → String → ℕ → AutomationJob → Bool
is_owned job_id worker_id generation j =
    str_eq j.id job_id && (is_text j.lease_owner worker_id && j.fencing_generation == generation)

-- The WHERE of the UPDATE; the lease is tested where the caller asks for it.
abbrev pub may_move : TransitionArgs → ℕ → AutomationJob → Bool
may_move t now j =
    is_owned t.job_id t.worker_id t.generation j
    && (not j.is_cancelled
        && (if t.require_live_lease || ltb 0 t.required_lease_margin_seconds
            then after j.lease_expires_at (now + t.required_lease_margin_seconds)
            else true))

-- The SET of the UPDATE.
abbrev pub moved : TransitionArgs → ℕ → AutomationJob → AutomationJob
moved t now j = record j {
  state = t.to_state;
  next_retry_at = coalesce t.next_retry_at j.next_retry_at;
  attempt_count = if t.decrement_attempt_count then j.attempt_count - 1 else j.attempt_count;
  checkpoint = keep_or t.checkpoint j.checkpoint;
  error_code = keep_or t.error_code j.error_code;
  error_message = keep_or t.error_message j.error_message;
  updated_at = now;
}

-- The status that the application gets, where the new state is the end of the job.
abbrev pub status_after : JobState → Option String
status_after failed_permanent = some "failed"
status_after cancelled = some "cancelled"
status_after ambiguous_submission = some "ambiguous"
status_after _ = none

abbrev text_or_none : String → Option String
text_or_none s = if non_empty s then some s else none

pub project_application : Option String → String → String → ℕ → Db → Db
project_application none app_id message now db = db
project_application (some status) app_id message now db =
    if non_empty app_id then set_application app_id status (text_or_none message) now db else db

abbrev app_id_or_empty : Option AutomationJob → String
app_id_or_empty none = ""
app_id_or_empty (some j) = j.app_id

abbrev state_of : Option AutomationJob → Option JobState
state_of none = none
state_of (some j) = some j.state

-- What follows a transition that changed a row.
after_move : TransitionArgs → Option JobState → String → ℕ → Db → Db
unfolding project_application
after_move t previous app_id now db =
    log_event
      (record (event (some t.job_id) (some app_id) "state_transition"
        (if is_exception t.to_state then "WARN" else "INFO") (value t.to_state)) {
          worker_id = some t.worker_id;
          lease_generation = some t.generation;
          from_state = previous;
          to_state = some t.to_state;
          outcome_code = if is_terminal t.to_state then some (value t.to_state) else none;
        })
      now (project_application (status_after t.to_state) app_id t.error_message now db)

abbrev move_rows : TransitionArgs → ℕ → Db → Db
move_rows t now db = record db { jobs = update_where (may_move t now) (moved t now) db.jobs }

-- The effects of a transition that changed a row.
commit_move : TransitionArgs → ℕ → Db → Db
unfolding after_move
commit_move t now db =
    let moved_db = move_rows t now db in
    let paused_db = if t.pause_runtime_after_success then pause now moved_db else moved_db in
    after_move t (state_of (find_where (is_owned t.job_id t.worker_id t.generation) db.jobs))
      (app_id_or_empty (get_job t.job_id paused_db)) now paused_db

unfoldable pub transition_job : TransitionArgs → (now : ℕ) → Db → Db × Bool
unfolding commit_move
transition_job t now db =
    if ltb 0 (count_where (may_move t now) db.jobs)
    then (commit_move t now db, true)
    else (db, false)
