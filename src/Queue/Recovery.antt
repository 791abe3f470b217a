-- ===== src/Queue/Recovery.antt =====
-- Recovery (src/job_applier/automation/queue.py): `reconcile_stranded_jobs`,
-- `repair_ambiguous_projections` and `clear_automation_state`. Each runs at
-- one reading of each clock; `fresh` gives the random part of the alert's id for each job.
-- The first two are loops of one transaction per row in the program; here nothing comes in between.
pub mod Moves
pub mod Settled
pub mod Stranded
use job_applier.Base.{
  ℕ, ◌+◌, String, Bool, true, false, not, ◌&&◌, ◌||◌, Option, none, some, List, [], ◌∷◌, max,
  is_none, coalesce_or, not_after, ◌<>◌, decimal, if◌then◌else◌, update_where, select_where,
}
use job_applier.Queue.State.{
  ready, auth_required, mfa_required, captcha_required, ambiguous_submission, state_eq,
  is_submitting, is_preparing, value,
}
use job_applier.Queue.Db.{Db, AutomationJob}
use job_applier.Queue.Events.{event, log_event}
use job_applier.Queue.Ambiguity.{AmbiguityArgs, ambiguity, mark_job_ambiguous}
use job_applier.Queue.Control.{set_control, is_wrong_owner}

-- The loop over the rows that were selected: each is marked in a transaction of its own, and the ids
-- of those that were changed are collected.
pub mark_each : (AutomationJob → AmbiguityArgs) → ℕ → List AutomationJob → Db → Db × List String
mark_each args now [] db = (db, [])
mark_each args now (row ∷ rows) db =
    let (marked, done) = mark_job_ambiguous (args row) now db in
    let (after_all, ids) = mark_each args now rows marked in
    (after_all, if done then row.id ∷ ids else ids)

-- A submission whose lease has run out.
abbrev pub is_stranded : ℕ → AutomationJob → Bool
is_stranded now j =
    is_submitting j.state && (is_none j.lease_expires_at || not_after j.lease_expires_at now)

abbrev pub stranded_args : (String → String) → AutomationJob → AmbiguityArgs
stranded_args fresh row =
    record (ambiguity row.id
      "Worker lost its lease while in submit_intent/verifying; recovered by the active sweeper."
      (fresh row.id)) {
        expected_worker_id = row.lease_owner;
        expected_generation = some row.fencing_generation;
        checkpoint = "stranded_crash_recovery";
        error_code = "CRASH_DURING_SUBMISSION";
        operation_key = some ("crash_recovery:" <> row.id <> ":" <> decimal row.fencing_generation);
      }

pub reconcile_stranded_jobs : (fresh : String → String) (now : ℕ) → Db → Db × List String
unfolding mark_each
reconcile_stranded_jobs fresh now db =
    mark_each (stranded_args fresh) now (select_where (is_stranded now) db.jobs) db

abbrev pub repair_args : (String → String) → AutomationJob → AmbiguityArgs
repair_args fresh row =
    record (ambiguity row.id
      "Ambiguous submission projection repaired after an interrupted transaction." (fresh row.id)) {
        checkpoint = "ambiguous_projection_repair";
        error_code = "AMBIGUOUS_PROJECTION_REPAIR";
        operation_key = some ("projection_repair:" <> row.id);
        repair_existing = true;
      }

pub repair_ambiguous_projections : (fresh : String → String) (now : ℕ) → Db → Db × List String
unfolding mark_each
repair_ambiguous_projections fresh now db =
    mark_each (repair_args fresh) now
      (select_where (λ (j : AutomationJob). state_eq j.state ambiguous_submission) db.jobs) db

abbrev pub clear_args : (String → String) → AutomationJob → AmbiguityArgs
clear_args fresh row =
    record (ambiguity row.id
      ("Clear State interrupted "
        <> value row.state
        <> "; manual outcome verification is required.")
      (fresh row.id)) {
        expected_worker_id = row.lease_owner;
        expected_generation = some row.fencing_generation;
        checkpoint = "clear_state_ambiguous";
        error_code = "CLEAR_STATE_AMBIGUOUS";
        operation_key =
            some ("clear_state_ambiguous:" <> row.id <> ":" <> decimal row.fencing_generation);
        event_type = "clear_state_ambiguous";
      }

-- The states that return to ready.
abbrev pub is_resettable : AutomationJob → Bool
is_resettable j =
    (is_preparing j.state
      || (state_eq j.state auth_required
          || (state_eq j.state mfa_required || state_eq j.state captcha_required)))
    && not j.is_cancelled

abbrev pub as_reset : ℕ → AutomationJob → AutomationJob
as_reset now j = record j {
  state = ready;
  lease_owner = none;
  lease_expires_at = none;
  fencing_generation = j.fencing_generation + 1;
  checkpoint = none;
  updated_at = now;
}

-- The UPDATE of runtime_control.
reset_control : ℕ → Db → Db
reset_control now db =
    set_control
      (record (db.control) {
        is_paused = false;
        is_stopped = false;
        manual_takeover_owner = none;
        manual_takeover_expires_at = none;
        browser_active = false;
        browser_url = some "";
        browser_page_text = some "";
        browser_is_closed = true;
        is_waiting_for_code = false;
        pending_verification_code = none;
        browser_job_id = none;
        browser_shutdown_generation = some (
            max (coalesce_or db.control.browser_shutdown_generation 0)
              (coalesce_or db.control.browser_session_generation 0)
            + 1);
        browser_updated_at = some now;
        updated_at = now;
      })
      db

abbrev pub reset_jobs : ℕ → Db → Db
reset_jobs now db = record db { jobs = update_where is_resettable (as_reset now) db.jobs }

abbrev pub is_interrupted : AutomationJob → Bool
is_interrupted j = is_submitting j.state && not j.is_cancelled

-- The event `automation_state_cleared` is inserted after the transaction was committed, on a connection that is
-- closed without a commit: it does not last, and is left out here.
-- `none` is the refusal of a caller that is not the owner of the takeover.
pub clear_automation_state :
    (expected_owner : Option String) (fresh : String → String) (now utc : ℕ) → Db → Db × Bool
unfolding mark_each reset_control
clear_automation_state expected_owner fresh now utc db =
    let (marked, ids) = mark_each (clear_args fresh) now (select_where is_interrupted db.jobs) db in
    if is_wrong_owner expected_owner utc db
    then (db, false)
    else (reset_jobs now (reset_control now marked), true)
