-- ===== src/Ops/EmergencyStop/Moves.antt =====
-- The emergency stop moves jobs along their lifecycle.
use job_applier.Base.{ℕ, refl, String, Option, select_ordered}
use job_applier.Queue.Db.{Db}
use job_applier.Queue.Events.Frame.{record_event-Same}
use job_applier.Queue.Lifecycle.{AutoMove, reset, Acts}
use job_applier.Queue.Lifecycle.Laws.{Acts-refl, Acts-same, Acts-trans, Acts-update, Acts-if, one}
use job_applier.Queue.Control.{is_wrong_owner}
use job_applier.Queue.Recovery.Moves.{mark_each-Acts}
use job_applier.Ops.EmergencyStop.{
  StopArgs, Readings, stop_args, by_id, may_have_submitted, mark_submitting, is_interrupted_early,
  as_revoked, engage, emergency_stop, clear_emergency_stop,
}
use job_applier.Ops.EmergencyStop.Halts.{engage-jobs}

engage-Acts : (a : StopArgs) (now : ℕ) (db : Db) → Acts AutoMove db (engage a now db)
engage-Acts a now db =
    Acts-update is_interrupted_early (as_revoked now) (engage-jobs a now db).0 (λ j. refl)
      (λ j found may. one (reset (rw may refl) refl refl refl refl))

pub emergency_stop-Acts :
    (a : StopArgs) (now : ℕ) (utc : Readings) (db : Db)
    → Acts AutoMove db (emergency_stop a now utc db).0
unfolding emergency_stop
emergency_stop-Acts a now utc db =
    let marked = mark_submitting a now db in
    Acts-if (is_wrong_owner a.expected_owner utc.first db) _ _ (Acts-refl db) (
      Acts-if (is_wrong_owner a.expected_owner utc.second marked) _ _ (Acts-refl db) (
        Acts-if (is_wrong_owner a.expected_owner utc.third (engage a now marked)) _ _ (Acts-refl db)
          (Acts-trans
            (mark_each-Acts now (stop_args a.fresh) (λ j s h. h)
              (select_ordered by_id may_have_submitted db.jobs) db)
            (engage-Acts a now marked))))

pub clear_emergency_stop-Acts :
    (expected_owner : Option String) (now utc : ℕ) (db : Db)
    → Acts AutoMove db (clear_emergency_stop expected_owner now utc db).0
unfolding clear_emergency_stop
clear_emergency_stop-Acts expected_owner now utc db =
    Acts-if (is_wrong_owner expected_owner utc db) _ _ (Acts-refl db)
      (Acts-same (record_event-Same _ now _).jobs)
