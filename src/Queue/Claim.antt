-- ===== src/Queue/Claim.antt =====
-- `claim_next_job` and `renew_lease` (src/job_applier/automation/queue.py). `now` is the clock as the
-- operation reads it under the queue lock.
pub mod Moves
pub mod Stale
pub mod Claimable
pub mod Selection
use job_applier.Base.{
  ℕ, ◌+◌, String, Bool, false, not, ◌&&◌, ◌||◌, Option, none, some, ltb, ◌==◌, str_eq, is_text,
  lower_is, is_none, after, not_after, if◌then◌else◌, best_where, update_where, count_where, ltb_ℤ,
}
use job_applier.Queue.State.{ready, claimed, retry_wait, state_eq, is_preparing}
use job_applier.Queue.Db.{Db, AutomationJob, Application, get_job, get_application}
use job_applier.Queue.Events.{event, log_event}

-- JOIN applications, and LOWER(status) != 'dismissed'
abbrev pub not_dismissed : Option Application → Bool
not_dismissed none = false
not_dismissed (some a) = not (lower_is a.status "dismissed")

-- The WHERE of the selection.
unfoldable pub is_eligible : ℕ → Db → AutomationJob → Bool
is_eligible now db j =
    not j.is_cancelled
    && (not_dismissed (get_application j.app_id db)
        && (state_eq j.state ready
            || ((state_eq j.state retry_wait
                  && (is_none j.next_retry_at || not_after j.next_retry_at now))
                || (is_preparing j.state && not_after j.lease_expires_at now))))

-- ORDER BY priority DESC, created_at ASC
abbrev pub comes_first : AutomationJob → AutomationJob → Bool
comes_first a b =
    ltb_ℤ b.priority a.priority
    || (not (ltb_ℤ a.priority b.priority) && ltb a.created_at b.created_at)

-- SET of the claim of `chosen`, on a row with its id: a fresh generation and a lease
abbrev pub as_claimed : String → ℕ → ℕ → AutomationJob → AutomationJob → AutomationJob
as_claimed worker_id lease_seconds now chosen r = record r {
  state = claimed;
  lease_owner = some worker_id;
  lease_expires_at = some (now + lease_seconds);
  fencing_generation = chosen.fencing_generation + 1;
  attempt_count = chosen.attempt_count + 1;
  updated_at = now;
}

pub claim_row : String → ℕ → ℕ → AutomationJob → Db → Db
claim_row worker_id lease_seconds now chosen db = record db {
  jobs =
      update_where (λ (r : AutomationJob). str_eq r.id chosen.id)
        (as_claimed worker_id lease_seconds now chosen) db.jobs;
}

pub claim_chosen : String → ℕ → ℕ → Option AutomationJob → Db → Db × Option AutomationJob
unfolding claim_row
claim_chosen worker_id lease_seconds now none db = (db, none)
claim_chosen worker_id lease_seconds now (some j) db =
    let claimed_db = claim_row worker_id lease_seconds now j db in
    let logged =
      log_event
        (record (event (some j.id) (some j.app_id) "job_claimed" "INFO" "claim") {
          worker_id = some worker_id;
          lease_generation = some (j.fencing_generation + 1);
        })
        now claimed_db in
    (logged, get_job j.id logged)

unfoldable pub claim_next_job :
    (worker_id : String) (lease_seconds now : ℕ) → Db → Db × Option AutomationJob
unfolding claim_chosen
claim_next_job worker_id lease_seconds now db =
    if db.control.is_paused || db.control.is_stopped
    then (db, none)
    else claim_chosen worker_id lease_seconds now
        (best_where comes_first (is_eligible now db) db.jobs) db

-- WHERE of the heartbeat: the lease is this worker's, of this generation, and has not run out.
abbrev pub holds_lease : String → String → ℕ → ℕ → AutomationJob → Bool
holds_lease job_id worker_id generation now j =
    str_eq j.id job_id
    && (is_text j.lease_owner worker_id
        && (j.fencing_generation == generation
            && (not j.is_cancelled && after j.lease_expires_at now)))

pub renew_lease : (job_id worker_id : String) (generation lease_seconds now : ℕ) → Db → Db × Bool
renew_lease job_id worker_id generation lease_seconds now db =
    if db.control.is_stopped then (db, false) else (
      record db {
        jobs =
            update_where (holds_lease job_id worker_id generation now)
              (λ r. record r { lease_expires_at = some (now + lease_seconds); updated_at = now })
              db.jobs;
      },
      ltb 0 (count_where (holds_lease job_id worker_id generation now) db.jobs),
    )
