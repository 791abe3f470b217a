-- ===== src/System.antt =====
-- Runs of the queue: any operations of src/job_applier/automation/queue.py and the
-- emergency stop (src/job_applier/ops/emergency_stop.py) in any order, by any workers
-- and operators, each run to its end with its own readings of the clocks. The operations that are several
-- transactions in the program (the header of the library names them) are not interrupted here;
-- what a loop over jobs does in between is covered by its single steps, and the transition, the completion and
-- the alert of a failure are operations of their own too.
pub mod Refines
pub mod Fencing
pub mod Handover
pub mod Safety
use job_applier.Base.{ℕ, String, Bool, true, false, Option, List, [], ◌∷◌, ℤ}
use job_applier.Queue.Db.{Db, AutomationJob}
use job_applier.Queue.Enqueue.{enqueue_job}
use job_applier.Queue.Claim.{claim_next_job, renew_lease}
use job_applier.Queue.Transition.{TransitionArgs, transition_job}
use job_applier.Queue.Attempt.{AttemptArgs, create_attempt}
use job_applier.Queue.Intent.{record_submit_intent}
use job_applier.Queue.Complete.{Expected, complete_attempt}
use job_applier.Queue.Control.{
  set_runtime_pause, set_runtime_stop, set_pending_verification_code,
  consume_pending_verification_code,
}
use job_applier.Queue.Takeover.{
  LeaseArg, claim_manual_takeover, renew_manual_takeover, release_manual_takeover,
}
use job_applier.Queue.Outbox.{enqueue_notification, mark_notification_sent, mark_notification_retry}
use job_applier.Queue.Failure.{Failure, handle_job_failure, reschedule_for_safety_gate}
use job_applier.Queue.Cancel.{cancel_job}
use job_applier.Queue.Skip.{skip_job}
use job_applier.Queue.Resolve.{Resolution, resolve_job}
use job_applier.Queue.Ambiguity.{mark_job_ambiguous}
use job_applier.Queue.Recovery.{
  stranded_args, repair_args, reconcile_stranded_jobs, repair_ambiguous_projections,
  clear_automation_state,
}
use job_applier.Queue.Requeue.{requeue_auth_required_job}
use job_applier.Ops.EmergencyStop.{StopArgs, Readings, emergency_stop, clear_emergency_stop}

-- What the queue does by itself or by an operator who resolves no job: no call of a lease's owner.
pub data AutoOp : Type 0 where
  enqueue :
      (app_id adapter : String) (priority : ℤ) (max_retries : ℕ) (verify_artifacts has_art : Bool)
      (fresh : String) (now : ℕ)
      → AutoOp
  claim_next : (worker_id : String) (lease_seconds now : ℕ) → AutoOp
  renew : (job_id worker_id : String) (generation lease_seconds now : ℕ) → AutoOp
  start_attempt : AttemptArgs → (fresh : String) (now : ℕ) → AutoOp
  complete :
      (redact : String → String) (attempt_id outcome evidence details : String)
      (is_ambiguous : Bool) (expected : Expected) (now : ℕ)
      → AutoOp
  set_pause : (is_paused : Bool) (expected_owner : Option String) (now utc : ℕ) → AutoOp
  set_stop : (is_stopped : Bool) (now : ℕ) → AutoOp
  set_code : (code : String) (expected_owner : Option String) (now utc : ℕ) → AutoOp
  consume_code : (now : ℕ) → AutoOp
  claim_takeover : (owner : String) → LeaseArg → (now utc : ℕ) → AutoOp
  renew_takeover : (owner : String) → LeaseArg → (now utc : ℕ) → AutoOp
  release_takeover : (owner : Option String) (force : Bool) (now : ℕ) → AutoOp
  notify :
      (category message urgency : String) (dedup_key job_id app_id severity : Option String)
      (fresh fresh_item : String) (now : ℕ)
      → AutoOp
  mark_sent : (notif_id error : String) (now : ℕ) → AutoOp
  mark_retry : (notif_id error : String) (now : ℕ) → AutoOp
  cancel_one : (job_id reason : String) (now : ℕ) → AutoOp
  skip_one : (job_id reason fresh : String) (now : ℕ) → AutoOp
  reconcile : (fresh : String → String) (now : ℕ) → AutoOp
  repair : (fresh : String → String) (now : ℕ) → AutoOp
  -- one transaction of either loop, on a row that was selected before, with anything in between
  reconcile_one : (fresh : String → String) (row : AutomationJob) (now : ℕ) → AutoOp
  repair_one : (fresh : String → String) (row : AutomationJob) (now : ℕ) → AutoOp
  clear_state : (expected_owner : Option String) (fresh : String → String) (now utc : ℕ) → AutoOp
  requeue : (job_id expected_owner : Option String) (now utc : ℕ) → AutoOp
  stop_all : StopArgs → (now : ℕ) (utc : Readings) → AutoOp
  clear_stop : (expected_owner : Option String) (now utc : ℕ) → AutoOp

pub data Op : Type 0 where
  auto_op : AutoOp → Op
  -- what the owner of a lease does with its job
  transition_one : TransitionArgs → (now : ℕ) → Op
  submit_intent_op : (attempt_id job_id worker_id : String) (generation now : ℕ) → Op
  fail_one : Failure → (is_pre_submit : Bool) (category : String) (now : ℕ) → Op
  reschedule : Failure → (retry_delay_seconds now : ℕ) → Op
  -- the operator's override
  resolve_one : Resolution → (now utc : ℕ) → Op

pub exec_auto : AutoOp → Db → Db
exec_auto (enqueue a b p m v h f now) db = (enqueue_job a b p m v h f now db).0
exec_auto (claim_next w l now) db = (claim_next_job w l now db).0
exec_auto (renew j w g l now) db = (renew_lease j w g l now db).0
exec_auto (start_attempt c f now) db = (create_attempt c f now db).0
exec_auto (complete r a o e d b x now) db = (complete_attempt r a o e d b x now db).0
exec_auto (set_pause b o now utc) db = (set_runtime_pause b o now utc db).0
exec_auto (set_stop b now) db = set_runtime_stop b now db
exec_auto (set_code c o now utc) db = (set_pending_verification_code c o now utc db).0
exec_auto (consume_code now) db = (consume_pending_verification_code now db).0
exec_auto (claim_takeover o l now utc) db = (claim_manual_takeover o l now utc db).0
exec_auto (renew_takeover o l now utc) db = (renew_manual_takeover o l now utc db).0
exec_auto (release_takeover o f now) db = (release_manual_takeover o f now db).0
exec_auto (notify c m u k j a s f g now) db = enqueue_notification c m u k j a s f g now db
exec_auto (mark_sent n e now) db = (mark_notification_sent n e now db).0
exec_auto (mark_retry n e now) db = (mark_notification_retry n e now db).0
exec_auto (cancel_one j r now) db = (cancel_job j r now db).0
exec_auto (skip_one j r f now) db = (skip_job j r f now db).0
exec_auto (reconcile f now) db = (reconcile_stranded_jobs f now db).0
exec_auto (repair f now) db = (repair_ambiguous_projections f now db).0
exec_auto (reconcile_one f row now) db = (mark_job_ambiguous (stranded_args f row) now db).0
exec_auto (repair_one f row now) db = (mark_job_ambiguous (repair_args f row) now db).0
exec_auto (clear_state o f now utc) db = (clear_automation_state o f now utc db).0
exec_auto (requeue j o now utc) db = (requeue_auth_required_job j o now utc db).0
exec_auto (stop_all a now utc) db = (emergency_stop a now utc db).0
exec_auto (clear_stop o now utc) db = (clear_emergency_stop o now utc db).0

pub exec : Op → Db → Db
unfolding exec_auto
exec (auto_op a) db = exec_auto a db
exec (transition_one t now) db = (transition_job t now db).0
exec (submit_intent_op a j w g now) db = (record_submit_intent a j w g now db).0
exec (fail_one f p c now) db = (handle_job_failure f p c now db).0
exec (reschedule f d now) db = (reschedule_for_safety_gate f d now db).0
exec (resolve_one r now utc) db = (resolve_job r now utc db).0

unfoldable pub run_auto : List AutoOp → Db → Db
unfolding exec_auto
run_auto [] db = db
run_auto (op ∷ ops) db = run_auto ops (exec_auto op db)

unfoldable pub run : List Op → Db → Db
unfolding exec
run [] db = db
run (op ∷ ops) db = run ops (exec op db)
