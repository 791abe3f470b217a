-- ===== src/Tests/Runs.antt =====
-- Runs of the queue on a small queue.
use job_applier.Base.{ℕ, ◌≡◌, ◌≤◌, refl, none, some, List, [], ◌∷◌, true, false, arith}
use job_applier.Queue.Db.{AutomationJob, Db, get_job, raised, runtime_error}
use job_applier.Queue.State.{filling}
use job_applier.Queue.Claim.{is_eligible, renew_lease}
use job_applier.Queue.Transition.{transition, transition_job}
use job_applier.Queue.Intent.{record_submit_intent, has_submit_permit}
use job_applier.Queue.Fence.{ClickArgs, begin_submit_click_fence}
use job_applier.Queue.Lifecycle.{Move, Acts}
use job_applier.System.{AutoOp, claim_next, reconcile, clear_state, Op, auto_op, run_auto, run}
use job_applier.System.Safety.{is_past_submit, run_auto-never_retries, run_auto-keeps_cancelled}
use job_applier.System.Fencing.{run-fences_out, run-generation}
use job_applier.System.Refines.{run-Acts}
use job_applier.Tests.{working, submitting, attempt, queue}

abbrev in_doubt : Db
in_doubt = queue submitting (attempt (some 110) ∷ [])

-- The sweep finds the lease run out, Clear State follows, and a worker asks for work.
abbrev sweeps : List AutoOp
sweeps =
    reconcile (λ id. id) 200 ∷ clear_state none (λ id. id) 210 600 ∷ claim_next "w2" 60 220 ∷ []

abbrev steps : List Op
steps = auto_op (reconcile (λ id. id) 200) ∷ auto_op (claim_next "w2" 60 220) ∷ []

run_auto-never_retries_example :
    (j' : AutomationJob) × (get_job "j1" (run_auto sweeps in_doubt) ≡ some j')
    × (is_past_submit j'.state ≡ true)
    × ((now : ℕ) → is_eligible now (run_auto sweeps in_doubt) j' ≡ false)
run_auto-never_retries_example =
    run_auto-never_retries sweeps in_doubt (refl, tt) "j1" submitting refl refl

abbrev cancelled_working : AutomationJob
cancelled_working = record working { is_cancelled = true }

run_auto-keeps_cancelled_example :
    (j' : AutomationJob) × (get_job "j1" (run_auto sweeps (queue cancelled_working [])) ≡ some j')
    × (j'.is_cancelled ≡ true)
    × ((now : ℕ) → is_eligible now (run_auto sweeps (queue cancelled_working [])) j' ≡ false)
run_auto-keeps_cancelled_example =
    run_auto-keeps_cancelled sweeps (queue cancelled_working []) (refl, tt) "j1" cancelled_working
      refl refl

abbrev old_click : ClickArgs
old_click = record { job_id = "j1"; attempt_id = "a1"; worker_id = "w0"; generation = 4 }

run-fences_out_example :
    (transition_job (transition "j1" "w0" 4 filling) 230 (run steps in_doubt)
      ≡ (run steps in_doubt, false))
    × (renew_lease "j1" "w0" 4 60 230 (run steps in_doubt) ≡ (run steps in_doubt, false))
    × (record_submit_intent "a1" "j1" "w0" 4 230 (run steps in_doubt) ≡ (run steps in_doubt, false))
    × (has_submit_permit "j1" "w0" 4 20 230 (run steps in_doubt) ≡ false)
    × (begin_submit_click_fence old_click 230 700 (run steps in_doubt) ≡ raised runtime_error)
run-fences_out_example =
    run-fences_out steps in_doubt (refl, tt) old_click
      (record { job = submitting; found = refl; past = omega arith })
      (transition "j1" "w0" 4 filling) refl refl 60 20 230 700

run-generation_example :
    (j' : AutomationJob) × (get_job "j1" (run steps in_doubt) ≡ some j')
    × (5 ≤ j'.fencing_generation)
run-generation_example = run-generation steps in_doubt (refl, tt) "j1" submitting refl

run-Acts_example : Acts Move in_doubt (run steps in_doubt)
run-Acts_example = run-Acts steps in_doubt (refl, tt)
