-- ===== src/Tests/Submission.antt =====
-- The submission, the takeover and the verdicts on a small queue.
use job_applier.Base.{
  String, ◌<◌, ℕ, ◌≡◌, ◌⊎◌, ◌≤◌, refl, none, some, [], ◌∷◌, true, false, pos, is_some, find_where,
  arith, ◌+◌,
}
use job_applier.Queue.State.{JobState, retry_wait, failed_permanent, ambiguous_submission}
use job_applier.Queue.Db.{Db, AutomationJob, get_job, ok, raised, value_error, runtime_error}
use job_applier.Queue.Intent.{record_submit_intent, has_submit_permit}
use job_applier.Queue.Intent.Outcome.{
  IntentOf, record_submit_intent-outcome, record_submit_intent-once,
}
use job_applier.Queue.Fence.{ClickArgs, is_own_attempt, intent_of, begin_submit_click_fence}
use job_applier.Queue.Fence.Outcome.{begin_submit_click_fence-granted}
use job_applier.Queue.Control.{set_runtime_pause, set_pending_verification_code}
use job_applier.Queue.Takeover.{
  int, not_owner, success, conflict, claim_manual_takeover, renew_manual_takeover,
  release_manual_takeover, is_takeover_active,
}
use job_applier.Queue.Takeover.Exclusion.{
  IsLength, IsForeign, LeaseOf, LeaseOf-exclusive, claim_manual_takeover-outcome,
}
use job_applier.Queue.Ambiguity.{ambiguity, mark_job_ambiguous}
use job_applier.Queue.Ambiguity.Outcome.{Doubt, mark_job_ambiguous-outcome}
use job_applier.Queue.Failure.{Failure, went_to, lease_lost, guarded, handle_job_failure}
use job_applier.Queue.Failure.Verdicts.{handle_job_failure-verdict, handle_job_failure-retries}
use job_applier.Queue.Resolve.{Resolution, resolve_job}
use job_applier.Queue.Resolve.Outcome.{Resolved, resolve_job-Resolved}
use job_applier.Queue.Transition.{moved, transition_job}
use job_applier.System.Handover.{claim_manual_takeover-stops_workers}
use job_applier.Queue.Claim.{claim_next_job}
use job_applier.Queue.Events.{EventArgs, event, record_event}
use job_applier.Queue.Events.Repeats.{record_event-once}
use job_applier.Tests.{job, working, submitting, attempt, queue}

record_submit_intent-outcome_example :
    (((record_submit_intent "a1" "j1" "w1" 5 120 (queue working (attempt none ∷ []))).1 ≡ true)
      × IntentOf "a1" "j1" "w1" 5 120
          (queue working (attempt none ∷ []))
          (record_submit_intent "a1" "j1" "w1" 5 120 (queue working (attempt none ∷ []))).0)
    ⊎ (record_submit_intent "a1" "j1" "w1" 5 120 (queue working (attempt none ∷ []))
        ≡ (queue working (attempt none ∷ []), false))
record_submit_intent-outcome_example =
    record_submit_intent-outcome "a1" "j1" "w1" 5 120 (queue working (attempt none ∷ [])) (refl, tt)
      (refl, tt)

record_submit_intent-once_example :
    record_submit_intent "a1" "j1" "w1" 5 120 (queue working (attempt (some 110) ∷ []))
    ≡ (queue working (attempt (some 110) ∷ []), false)
record_submit_intent-once_example =
    record_submit_intent-once "a1" "j1" "w1" 5 120 (queue working (attempt (some 110) ∷ []))
      (refl, tt) (refl, tt) (attempt (some 110)) 110 refl refl

abbrev click : ClickArgs
click = record { job_id = "j1"; attempt_id = "a1"; worker_id = "w1"; generation = 5 }

abbrev ready_to_click : Db
ready_to_click = queue submitting (attempt (some 110) ∷ [])

begin_submit_click_fence-granted_example :
    (has_submit_permit "j1" "w1" 5 20 120 ready_to_click ≡ true)
    × (false ≡ false)
    × ((is_takeover_active 0 ready_to_click).0 ≡ false)
    × (is_some (intent_of (find_where (is_own_attempt click) ready_to_click.attempts)) ≡ true)
unfolding begin_submit_click_fence
begin_submit_click_fence-granted_example =
    begin_submit_click_fence-granted click 120 0 ready_to_click (refl, tt) refl

abbrev taken_over : Db
taken_over = record ready_to_click {
  control = record (ready_to_click.control) {
    is_paused = true;
    manual_takeover_owner = some "alice";
    manual_takeover_expires_at = some 500;
  };
}

LeaseOf-exclusive_example :
    ((claim_manual_takeover "bob" (int (pos 60)) 120 400 taken_over).0 ≡ taken_over)
    × ((renew_manual_takeover "bob" (int (pos 60)) 120 400 taken_over).0 ≡ taken_over)
    × (release_manual_takeover (some "bob") false 120 taken_over ≡ (taken_over, not_owner))
    × (set_runtime_pause false (some "bob") 120 400 taken_over ≡ (taken_over, false))
    × (set_pending_verification_code "123" (some "bob") 120 400 taken_over ≡ (taken_over, false))
LeaseOf-exclusive_example =
    LeaseOf-exclusive "alice" 500 taken_over (record { paused = refl; owned = refl; until = refl })
      refl "bob" refl refl (int (pos 60)) false "123" 120 400 (omega arith)

claim_manual_takeover-outcome_example :
    ((¬ IsLength (int (pos 60)))
      × (claim_manual_takeover "bob" (int (pos 60)) 120 600 taken_over
          ≡ (taken_over, raised value_error)))
    ⊎ ((s : ℕ) × (int (pos 60) ≡ int (pos s))
        × (1 ≤ s)
        × (s ≤ 300)
        × (((another : String) × (until : ℕ) × IsForeign "bob" another until 600 taken_over
              × (claim_manual_takeover "bob" (int (pos 60)) 120 600 taken_over
                  ≡ (taken_over, ok (conflict (some another) (some until)))))
            ⊎ (((another : String) (until : ℕ) → ¬ IsForeign "bob" another until 600 taken_over)
                × ((claim_manual_takeover "bob" (int (pos 60)) 120 600 taken_over).1
                    ≡ ok (success (some (600 + s))))
                × LeaseOf "bob"
                    (600 + s)
                    (claim_manual_takeover "bob" (int (pos 60)) 120 600 taken_over).0)))
claim_manual_takeover-outcome_example =
    claim_manual_takeover-outcome "bob" 120 600 taken_over (int (pos 60))

mark_job_ambiguous-outcome_example :
    (((mark_job_ambiguous (ambiguity "j1" "no answer" "x") 120 ready_to_click).1 ≡ true)
      × Doubt
          (ambiguity "j1" "no answer" "x")
          120
          ready_to_click
          (mark_job_ambiguous (ambiguity "j1" "no answer" "x") 120 ready_to_click).0)
    ⊎ (mark_job_ambiguous (ambiguity "j1" "no answer" "x") 120 ready_to_click
        ≡ (ready_to_click, false))
mark_job_ambiguous-outcome_example =
    mark_job_ambiguous-outcome (ambiguity "j1" "no answer" "x") 120 ready_to_click (refl, tt)

abbrev failure : Failure
failure = record {
  job_id = "j1";
  worker_id = "w1";
  generation = 5;
  attempt_id = none;
  error = "timeout";
  redact = λ s. s;
  fresh = "x";
  fresh_item = "y";
}

handle_job_failure-verdict_example :
    ((s : JobState) × ((handle_job_failure failure false "timeout" 120 ready_to_click).1
        ≡ went_to s)
      × (j : AutomationJob) × (get_job "j1"
            (handle_job_failure failure false "timeout" 120 ready_to_click).0
          ≡ some j)
      × (j.state ≡ s)
      × (false ≡ false → (s ≡ ambiguous_submission) ⊎ (s ≡ failed_permanent)))
    ⊎ (((handle_job_failure failure false "timeout" 120 ready_to_click).1 ≡ lease_lost)
        × ((handle_job_failure failure false "timeout" 120 ready_to_click).0.jobs
            ≡ ready_to_click.jobs))
handle_job_failure-verdict_example =
    handle_job_failure-verdict failure false "timeout" 120 ready_to_click (refl, tt)

-- The job after its first attempt timed out.
abbrev retried : AutomationJob
retried =
    moved
      (record (guarded failure retry_wait "PRE_SUBMIT_TRANSIENT") {
        checkpoint = "retry_wait";
        next_retry_at = some 150;
      })
      120 working

handle_job_failure-retries_example : (true ≡ true) × (1 < 3)
unfolding handle_job_failure transition_job record_event
handle_job_failure-retries_example =
    handle_job_failure-retries failure true "timeout" 120 (queue working []) (refl, tt) working
      retried refl refl (λ e. cc e) refl

abbrev doubtful : Db
doubtful = queue (job "j1" ambiguous_submission none none 6) []

abbrev retry : Resolution
retry = record {
  job_id = "j1";
  resolution_type = "retry";
  answer_value = "";
  question_key = "";
  normal_key = "";
  trimmed = "";
  approved_scope = "global";
  force = false;
  expected_owner = none;
  fresh = "z";
}

resolve_job-Resolved_example :
    Resolved
      (record retry { force = true })
      400
      doubtful
      (resolve_job (record retry { force = true }) 120 400 doubtful).0
unfolding resolve_job
resolve_job-Resolved_example =
    resolve_job-Resolved (record retry { force = true }) 120 400 doubtful (refl, tt) refl

claim_manual_takeover-stops_workers_example :
    (claim_next_job "w2" 60 130
        (claim_manual_takeover "bob" (int (pos 60)) 120 600 ready_to_click).0
      ≡ ((claim_manual_takeover "bob" (int (pos 60)) 120 600 ready_to_click).0, none))
    × (begin_submit_click_fence click 130 700
          (claim_manual_takeover "bob" (int (pos 60)) 120 600 ready_to_click).0
        ≡ raised runtime_error)
unfolding claim_manual_takeover
claim_manual_takeover-stops_workers_example =
    claim_manual_takeover-stops_workers "bob" (int (pos 60)) 120 600 ready_to_click (some 660) refl
      "w2" 60 130 click 700

-- The key under which the code logs every stored intent.
abbrev intent_event : EventArgs
intent_event =
    record (event (some "j1") (some "app") "submit_intent_persisted" "INFO" "submit_intent") {
      attempt_id = some "a1";
      event_key = some "submit_intent_persisted";
    }

record_event-once_example :
    record_event intent_event 130 (record_event intent_event 120 ready_to_click).0
    ≡ record_event intent_event 120 ready_to_click
record_event-once_example = record_event-once intent_event 120 130 ready_to_click refl refl
