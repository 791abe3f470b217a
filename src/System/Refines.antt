-- ===== src/System/Refines.antt =====
-- Every operation, and so every run, moves each job along its lifecycle.
use job_applier.Base.{List, [], ◌∷◌, IsKeyed}
use job_applier.Queue.Db.{Db, job_id_of}
use job_applier.Queue.Lifecycle.{AutoMove, Move, auto, Acts}
use job_applier.Queue.Lifecycle.Laws.{Acts-refl, Acts-same, Acts-trans, Acts-map}
use job_applier.Queue.Enqueue.Moves.{enqueue_job-Acts}
use job_applier.Queue.Claim.Moves.{claim_next_job-Acts, renew_lease-Acts}
use job_applier.Queue.Transition.Moves.{transition_job-Acts}
use job_applier.Queue.Attempt.Moves.{create_attempt-jobs}
use job_applier.Queue.Intent.Moves.{record_submit_intent-Acts}
use job_applier.Queue.Complete.Moves.{complete_attempt-jobs}
use job_applier.Queue.Control.Moves.{
  set_runtime_pause-Acts, set_runtime_stop-Acts, set_pending_verification_code-Acts,
  consume_pending_verification_code-Acts,
}
use job_applier.Queue.Takeover.Moves.{
  claim_manual_takeover-Acts, renew_manual_takeover-Acts, release_manual_takeover-Acts,
}
use job_applier.Queue.Outbox.Moves.{
  enqueue_notification-jobs, mark_notification_sent-jobs, mark_notification_retry-jobs,
}
use job_applier.Queue.Failure.Moves.{handle_job_failure-Acts, reschedule_for_safety_gate-Acts}
use job_applier.Queue.Cancel.Moves.{cancel_job-Acts}
use job_applier.Queue.Skip.Moves.{skip_job-Acts}
use job_applier.Queue.Resolve.Moves.{resolve_job-Acts}
use job_applier.Queue.Ambiguity.Moves.{mark_job_ambiguous-Acts}
use job_applier.Queue.Recovery.{stranded_args, repair_args}
use job_applier.Queue.Recovery.Moves.{
  reconcile_stranded_jobs-Acts, repair_ambiguous_projections-Acts, clear_automation_state-Acts,
}
use job_applier.Queue.Requeue.Moves.{requeue_auth_required_job-Acts}
use job_applier.Ops.EmergencyStop.Moves.{emergency_stop-Acts, clear_emergency_stop-Acts}
use job_applier.System.{
  AutoOp, enqueue, claim_next, renew, start_attempt, complete, set_pause, set_stop, set_code,
  consume_code, claim_takeover, renew_takeover, release_takeover, notify, mark_sent, mark_retry,
  cancel_one, skip_one, reconcile, repair, reconcile_one, repair_one, clear_state, requeue,
  stop_all, clear_stop, Op, auto_op, transition_one, submit_intent_op, fail_one, reschedule,
  resolve_one, exec_auto, exec, run_auto, run,
}

exec_auto-Acts :
    (op : AutoOp) (db : Db) → IsKeyed job_id_of db.jobs → Acts AutoMove db (exec_auto op db)
unfolding exec_auto
exec_auto-Acts (enqueue a b p m v h f now) db k = enqueue_job-Acts _ now db a b p m v h f
exec_auto-Acts (claim_next w l now) db k = claim_next_job-Acts w l now db k
exec_auto-Acts (renew j w g l now) db k = renew_lease-Acts _ j w g l now db
exec_auto-Acts (start_attempt c f now) db k = Acts-same (create_attempt-jobs c f now db)
exec_auto-Acts (complete r a o e d b x now) db k =
    Acts-same (complete_attempt-jobs r a o e d b x now db)
exec_auto-Acts (set_pause b o now utc) db k = set_runtime_pause-Acts _ db b o now utc
exec_auto-Acts (set_stop b now) db k = set_runtime_stop-Acts _ db b now
exec_auto-Acts (set_code c o now utc) db k = set_pending_verification_code-Acts _ db c o now utc
exec_auto-Acts (consume_code now) db k = consume_pending_verification_code-Acts _ db now
exec_auto-Acts (claim_takeover o l now utc) db k = claim_manual_takeover-Acts _ now db o l utc
exec_auto-Acts (renew_takeover o l now utc) db k = renew_manual_takeover-Acts _ now db o l utc
exec_auto-Acts (release_takeover o f now) db k = release_manual_takeover-Acts _ now db o f
exec_auto-Acts (notify c m u d j a s f g now) db k =
    Acts-same (enqueue_notification-jobs c m u d j a s f g now db)
exec_auto-Acts (mark_sent n e now) db k = Acts-same (mark_notification_sent-jobs n e now db)
exec_auto-Acts (mark_retry n e now) db k = Acts-same (mark_notification_retry-jobs n e now db)
exec_auto-Acts (cancel_one j r now) db k = cancel_job-Acts j r now db
exec_auto-Acts (skip_one j r f now) db k = skip_job-Acts j r f now db
exec_auto-Acts (reconcile f now) db k = reconcile_stranded_jobs-Acts now f db
exec_auto-Acts (repair f now) db k = repair_ambiguous_projections-Acts now f db
exec_auto-Acts (reconcile_one f row now) db k =
    mark_job_ambiguous-Acts (stranded_args f row) (λ s h. h) now db
exec_auto-Acts (repair_one f row now) db k =
    mark_job_ambiguous-Acts (repair_args f row) (λ s h. h) now db
exec_auto-Acts (clear_state o f now utc) db k = clear_automation_state-Acts now f db o utc
exec_auto-Acts (requeue j o now utc) db k = requeue_auth_required_job-Acts now db j o utc
exec_auto-Acts (stop_all a now utc) db k = emergency_stop-Acts a now utc db
exec_auto-Acts (clear_stop o now utc) db k = clear_emergency_stop-Acts o now utc db

exec-Acts : (op : Op) (db : Db) → IsKeyed job_id_of db.jobs → Acts Move db (exec op db)
unfolding exec
exec-Acts (auto_op a) db k = Acts-map (λ p q m. auto m) (exec_auto-Acts a db k)
exec-Acts (transition_one t now) db k = transition_job-Acts t now db
exec-Acts (submit_intent_op a j w g now) db k = record_submit_intent-Acts a j w g now db
exec-Acts (fail_one f p c now) db k = handle_job_failure-Acts f now db p c
exec-Acts (reschedule f d now) db k = reschedule_for_safety_gate-Acts f now db d
exec-Acts (resolve_one r now utc) db k = resolve_job-Acts r now utc db

-- Without a call by a lease's owner and without a resolution, a run moves each job by the automatic
-- moves alone.
pub run_auto-Acts :
    (ops : List AutoOp) (db : Db) → IsKeyed job_id_of db.jobs → Acts AutoMove db (run_auto ops db)
unfolding run_auto
run_auto-Acts [] db k = Acts-refl db
run_auto-Acts (op ∷ ops) db k =
    let first = exec_auto-Acts op db k in
    Acts-trans first (run_auto-Acts ops (exec_auto op db) (first.keyed k))

-- In any run, from a database where no two jobs have one id, every job stays in the table and goes
-- through moves of the lifecycle or through none, and the ids stay unique.
pub run-Acts : (ops : List Op) (db : Db) → IsKeyed job_id_of db.jobs → Acts Move db (run ops db)
unfolding run
run-Acts [] db k = Acts-refl db
run-Acts (op ∷ ops) db k =
    let first = exec-Acts op db k in Acts-trans first (run-Acts ops (exec op db) (first.keyed k))
