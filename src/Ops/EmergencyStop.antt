-- ===== src/Ops/EmergencyStop.antt =====
-- The emergency stop (src/job_applier/ops/emergency_stop.py): one transaction, which a rejection rolls back.
-- `now` is one reading of the local clock, and `utc` holds the three readings of the UTC clock at which the
-- owner of the takeover is tested. `fresh` gives the random part of each alert's id.
pub mod Halts
pub mod Moves
use job_applier.Base.{
  ℕ, ◌+◌, String, Bool, true, false, Option, none, some, max, coalesce_or, text_lt, ◌<>◌, decimal,
  if◌then◌else◌, update_where, count_where, select_ordered,
}
use job_applier.Queue.State.{ready, is_submitting, is_preparing, value}
use job_applier.Queue.Db.{Db, AutomationJob}
use job_applier.Queue.Events.{event, log_event}
use job_applier.Queue.Ambiguity.{AmbiguityArgs, ambiguity}
use job_applier.Queue.Recovery.{mark_each}
use job_applier.Queue.Control.{set_control, is_wrong_owner}
use job_applier.Queue.Outbox.Linked.{enqueue_notification_on_conn}

-- The readings of the UTC clock, in their order.
pub record Readings : Type 0 where
  pub first : ℕ
  pub second : ℕ
  pub third : ℕ

-- The arguments of the stop; `upper` stands for `str.upper`, and `fresh_alert` is for its own alert.
pub record StopArgs : Type 0 where
  pub reason : String
  pub expected_owner : Option String
  pub upper : String → String
  pub fresh : String → String
  pub fresh_alert : String

abbrev pub stop_args : (String → String) → AutomationJob → AmbiguityArgs
stop_args fresh row =
    record (ambiguity row.id
      ("Emergency stop interrupted "
        <> value row.state
        <> "; manual outcome verification is required.")
      (fresh row.id)) {
        expected_worker_id = row.lease_owner;
        expected_generation = some row.fencing_generation;
        checkpoint = "emergency_stop_ambiguous";
        error_code = "EMERGENCY_STOP_AMBIGUOUS";
        operation_key =
            some ("emergency_stop_ambiguous:" <> row.id <> ":" <> decimal row.fencing_generation);
        event_type = "emergency_stop_ambiguous";
        pause_runtime = false;
      }

-- ORDER BY id
abbrev pub by_id : AutomationJob → AutomationJob → Bool
by_id a b = text_lt a.id b.id

abbrev pub may_have_submitted : AutomationJob → Bool
may_have_submitted j = is_submitting j.state

abbrev pub mark_submitting : StopArgs → ℕ → Db → Db
mark_submitting a now db =
    (mark_each (stop_args a.fresh) now (select_ordered by_id may_have_submitted db.jobs) db).0

-- The UPDATE of runtime_control.
abbrev pub halt_control : ℕ → Db → Db
halt_control now db =
    set_control
      (record (db.control) {
        is_stopped = true;
        is_paused = true;
        browser_active = false;
        browser_url = some "";
        browser_page_text = some "";
        browser_is_closed = true;
        browser_job_id = none;
        browser_shutdown_generation = some (
            max (coalesce_or db.control.browser_shutdown_generation 0)
              (coalesce_or db.control.browser_session_generation 0)
            + 1);
        manual_takeover_owner = none;
        manual_takeover_expires_at = none;
        updated_at = now;
      })
      db

-- WHERE and SET of the UPDATE of the jobs.
abbrev pub is_interrupted_early : AutomationJob → Bool
is_interrupted_early j = is_preparing j.state

abbrev pub as_revoked : ℕ → AutomationJob → AutomationJob
as_revoked now j = record j {
  state = ready;
  lease_owner = none;
  fencing_generation = j.fencing_generation + 1;
  lease_expires_at = none;
  updated_at = now;
}

abbrev pub revoke_jobs : ℕ → Db → Db
revoke_jobs now db = record db { jobs = update_where is_interrupted_early (as_revoked now) db.jobs }

-- The audit event and the alert.
abbrev pub announce : StopArgs → ℕ → Db → Db
announce a now db =
    enqueue_notification_on_conn a.upper "system_failure"
      ("System emergency stop triggered: " <> a.reason <> ". All workers halted.") "critical" none
      none none (some "critical") none a.fresh_alert now
      (log_event (event none none "emergency_stop_engaged" "CRITICAL" "circuit_breaker") now db)

-- What is done between the second test of the owner and the third.
pub engage : StopArgs → ℕ → Db → Db
engage a now db = announce a now (revoke_jobs now (halt_control now db))

-- The number of leases that were revoked, or `none`: the caller is rejected.
pub emergency_stop : StopArgs → (now : ℕ) (utc : Readings) → Db → Db × Option ℕ
emergency_stop a now utc db =
    let marked = mark_submitting a now db in
    let halted = engage a now marked in
    if is_wrong_owner a.expected_owner utc.first db
    then (db, none)
    else if is_wrong_owner a.expected_owner utc.second marked
    then (db, none)
    else if is_wrong_owner a.expected_owner utc.third halted
    then (db, none)
    else (halted, some (count_where is_interrupted_early marked.jobs))

pub clear_emergency_stop : (expected_owner : Option String) (now utc : ℕ) → Db → Db × Bool
clear_emergency_stop expected_owner now utc db =
    if is_wrong_owner expected_owner utc db then (db, false) else (
      log_event (event none none "emergency_stop_cleared" "INFO" "circuit_breaker") now
          (set_control (record (db.control) { is_stopped = false; updated_at = now }) db),
      true,
    )
