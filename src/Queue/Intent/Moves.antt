-- ===== src/Queue/Intent/Moves.antt =====
-- The submit intent moves at most the job of the worker that owns the lease.
use job_applier.Base.{ℕ, Bool, true, false, String, count_where, ◌==◌}
use job_applier.Queue.Db.{Db}
use job_applier.Queue.Events.Frame.{record_event-Same}
use job_applier.Queue.Lifecycle.{Move, Acts}
use job_applier.Queue.Lifecycle.Laws.{Acts-refl, Acts-same, Acts-trans, Acts-if}
use job_applier.Queue.Transition.Moves.{transition_job-Acts}
use job_applier.Queue.Intent.{may_mark, mark_intent, record_submit_intent}

module _ (attempt_id job_id worker_id : String) (generation now : ℕ) where
  mark_intent-Acts :
      (before : Db) (x : Db × Bool)
      → Acts Move before x.0
      → Acts Move before (mark_intent attempt_id job_id worker_id generation now before x).0
  unfolding mark_intent
  mark_intent-Acts before (db, false) h = h
  mark_intent-Acts before (db, true) h =
      Acts-if (count_where (may_mark attempt_id job_id worker_id generation) db.attempts == 1) _ _
        (Acts-trans h (Acts-same (record_event-Same _ now _).jobs)) (Acts-refl before)

  pub record_submit_intent-Acts :
      (db : Db)
      → Acts Move db (record_submit_intent attempt_id job_id worker_id generation now db).0
  unfolding record_submit_intent
  record_submit_intent-Acts db = mark_intent-Acts db _ (transition_job-Acts _ now db)
