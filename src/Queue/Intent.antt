-- ===== src/Queue/Intent.antt =====
-- The durable submit intent (src/job_applier/automation/queue.py): `record_submit_intent` and
-- `has_submit_permit`.
pub mod Moves
pub mod Stale
pub mod Outcome
pub mod Steady
use job_applier.Base.{
  ℕ, ◌+◌, String, Bool, true, false, not, ◌&&◌, Option, none, some, ◌==◌, str_eq, is_text,
  is_number, is_some, is_none, after, if◌then◌else◌, update_where, count_where, find_where,
}
use job_applier.Queue.State.{submit_intent, state_eq}
use job_applier.Queue.Db.{Db, AutomationJob, ApplicationAttempt, get_job}
use job_applier.Queue.Events.{event, log_event}
use job_applier.Queue.Transition.{TransitionArgs, transition, is_owned, transition_job}

abbrev pub submit_lease_margin_seconds : ℕ
submit_lease_margin_seconds = 20

-- WHERE of the mark: this worker's attempt of this generation, with no mark yet.
abbrev pub may_mark : String → String → String → ℕ → ApplicationAttempt → Bool
may_mark attempt_id job_id worker_id generation a =
    str_eq a.id attempt_id
    && (str_eq a.job_id job_id
        && (is_text a.worker_id worker_id
            && (is_number a.lease_generation generation && is_none a.submit_intent_at)))

app_id_of_job : Option AutomationJob → Option String
app_id_of_job none = none
app_id_of_job (some j) = some j.app_id

-- The part after the transition; `before` is the database that a rollback restores.
mark_intent : String → String → String → ℕ → ℕ → Db → Db × Bool → Db × Bool
unfolding app_id_of_job
mark_intent attempt_id job_id worker_id generation now before (db, false) = (db, false)
mark_intent attempt_id job_id worker_id generation now before (db, true) =
    let marked = record db {
      attempts =
          update_where (may_mark attempt_id job_id worker_id generation)
            (λ a. record a { submit_intent_at = some now }) db.attempts;
    } in
    if count_where (may_mark attempt_id job_id worker_id generation) db.attempts == 1
    then (
      log_event
          (record (event (some job_id) (app_id_of_job (get_job job_id marked))
            "submit_intent_persisted" "INFO" "submit_intent") {
              attempt_id = some attempt_id;
              event_key = some "submit_intent_persisted";
              worker_id = some worker_id;
              lease_generation = some generation;
            })
          now marked,
      true,
    )
    else (before, false)

-- The transition, with a lease that outlasts the margin.
abbrev pub intent_transition : (job_id worker_id : String) (generation : ℕ) → TransitionArgs
intent_transition job_id worker_id generation =
    record (transition job_id worker_id generation submit_intent) {
      checkpoint = "submit_intent_persisted";
      require_live_lease = true;
      required_lease_margin_seconds = submit_lease_margin_seconds;
    }

pub record_submit_intent :
    (attempt_id job_id worker_id : String) (generation now : ℕ) → Db → Db × Bool
unfolding mark_intent
record_submit_intent attempt_id job_id worker_id generation now db =
    mark_intent attempt_id job_id worker_id generation now db
      (transition_job (intent_transition job_id worker_id generation) now db)

pub has_submit_permit : (job_id worker_id : String) (generation margin_seconds now : ℕ) → Db → Bool
has_submit_permit job_id worker_id generation margin_seconds now db = is_some (
    find_where
      (λ (j : AutomationJob).
        is_owned job_id worker_id generation j
        && (state_eq j.state submit_intent
            && (not j.is_cancelled && after j.lease_expires_at (now + margin_seconds))))
      db.jobs)
