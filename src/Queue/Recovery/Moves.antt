-- ===== src/Queue/Recovery/Moves.antt =====
-- The sweeps mark jobs as ambiguous, and clearing the state returns interrupted jobs to the queue.
use job_applier.Base.{ℕ, ◌≡◌, refl, ◌||◌, true, String, Option, List, [], ◌∷◌, arith, select_where}
use job_applier.Queue.State.{JobState, ambiguous_submission, state_eq, is_preparing, is_submitting}
use job_applier.Queue.Db.{AutomationJob, Db}
use job_applier.Queue.Lifecycle.{AutoMove, reset, Acts, is_reset_state}
use job_applier.Queue.Lifecycle.Laws.{Acts-refl, Acts-trans, Acts-update, Acts-if, one}
use job_applier.Queue.Control.{is_wrong_owner}
use job_applier.Queue.Ambiguity.{AmbiguityArgs, mark_job_ambiguous}
use job_applier.Queue.Ambiguity.Moves.{mark_job_ambiguous-Acts}
use job_applier.Queue.Recovery.{
  mark_each, is_stranded, stranded_args, reconcile_stranded_jobs, repair_args,
  repair_ambiguous_projections, clear_args, is_resettable, as_reset, reset_control, reset_jobs,
  is_interrupted, clear_automation_state,
}

module _ (now : ℕ) where
  pub mark_each-Acts :
      (args : AutomationJob → AmbiguityArgs)
      → ((j : AutomationJob) (s : JobState)
          → (args j).is_source s ≡ true
          → (is_preparing s || is_submitting s) ≡ true)
      → (rows : List AutomationJob) (db : Db) → Acts AutoMove db (mark_each args now rows db).0
  unfolding mark_each
  mark_each-Acts args sources [] db = Acts-refl db
  mark_each-Acts args sources (row ∷ rows) db =
      Acts-trans (mark_job_ambiguous-Acts (args row) (sources row) now db)
        (mark_each-Acts args sources rows (mark_job_ambiguous (args row) now db).0)

  module _ (fresh : String → String) (db : Db) where
    pub reconcile_stranded_jobs-Acts : Acts AutoMove db (reconcile_stranded_jobs fresh now db).0
    unfolding reconcile_stranded_jobs
    reconcile_stranded_jobs-Acts =
        mark_each-Acts (stranded_args fresh) (λ j s h. h) (select_where (is_stranded now) db.jobs)
          db

    pub repair_ambiguous_projections-Acts :
        Acts AutoMove db (repair_ambiguous_projections fresh now db).0
    unfolding repair_ambiguous_projections
    repair_ambiguous_projections-Acts =
        mark_each-Acts (repair_args fresh) (λ j s h. h)
          (select_where (λ (j : AutomationJob). state_eq j.state ambiguous_submission) db.jobs) db

    reset_jobs-Acts : (a : Db) → Acts AutoMove a (reset_jobs now (reset_control now a))
    unfolding reset_control
    reset_jobs-Acts a =
        Acts-update is_resettable (as_reset now) refl (λ j. refl)
          (λ j found may. one (reset (was_reset_state j may) refl refl refl refl))
      where
        was_reset_state :
            (j : AutomationJob) → is_resettable j ≡ true → is_reset_state j.state ≡ true
        was_reset_state j h = ground arith

    pub clear_automation_state-Acts :
        (expected_owner : Option String) (utc : ℕ)
        → Acts AutoMove db (clear_automation_state expected_owner fresh now utc db).0
    unfolding clear_automation_state
    clear_automation_state-Acts expected_owner utc =
        Acts-if (is_wrong_owner expected_owner utc db) _ _ (Acts-refl db) (
          Acts-trans
            (mark_each-Acts (clear_args fresh) (λ j s h. h) (select_where is_interrupted db.jobs)
              db)
            (reset_jobs-Acts _))
