-- ===== src/Tests/Claims.antt =====
-- Claims and transitions on a small queue.
use job_applier.Base.{
  String, some, ltb_ℤ, pos, ◌≤◌, ◌≡◌, ◌⊎◌, ◌<◌, refl, none, [], ◌∷◌, true, false, lower_is,
}
use job_applier.Queue.State.{navigating}
use job_applier.Queue.Db.{ok, AutomationJob, get_job}
use job_applier.Queue.Claim.{is_eligible, as_claimed, claim_next_job}
use job_applier.Queue.Events.{record_event}
use job_applier.Queue.Claim.Claimable.{IsClaimable, fresh}
use job_applier.Queue.Claim.Selection.{
  ClaimOf, claim_next_job-result, claim_next_job-first, claim_next_job-none,
}
use job_applier.Queue.Transition.{transition, transition_job}
use job_applier.Queue.Transition.Outcome.{IsMover, IsMoved, transition_job-outcome}
use job_applier.Queue.Control.{set_runtime_stop}
use job_applier.System.{auto_op, set_stop, run}
use job_applier.System.Fencing.{claims-grow}
use job_applier.Queue.Enqueue.{enqueue_job}
use job_applier.Queue.Enqueue.Idempotent.{enqueue_job-idempotent}
use job_applier.Queue.Outbox.{get_pending_notifications}
use job_applier.Queue.Outbox.Pending.{AllDue, is_by_age, length, get_pending_notifications-ordered}
use job_applier.Tests.{application, waiting, working, queue}

abbrev first_claim : AutomationJob
first_claim = as_claimed "w1" 60 100 waiting waiting

abbrev second_claim : AutomationJob
second_claim = as_claimed "w2" 60 300 first_claim first_claim

claim_next_job-result_example :
    ClaimOf "w1" 60 100
      (queue waiting [])
      (claim_next_job "w1" 60 100 (queue waiting [])).0
      first_claim
unfolding claim_next_job is_eligible record_event lower_is
claim_next_job-result_example =
    claim_next_job-result "w1" 60 100 (queue waiting []) (refl, tt) first_claim refl

claim_next_job-first_example :
    (ltb_ℤ (pos 0) waiting.priority ≡ false)
    × (waiting.priority ≡ first_claim.priority → first_claim.created_at ≤ waiting.created_at)
unfolding claim_next_job is_eligible record_event lower_is
claim_next_job-first_example =
    claim_next_job-first "w1" 60 100 (queue waiting []) (refl, tt) first_claim refl "j1" waiting
      refl
      (record {
        alive = refl;
        application = application;
        known = refl;
        wanted = refl;
        waits = fresh refl;
      })

claim_next_job-none_example :
    (claim_next_job "w1" 60 100 (queue working []) ≡ (queue working [], none))
    × ((false ≡ true)
        ⊎ ((false ≡ true)
            ⊎ ((id : String) (j : AutomationJob)
                → get_job id (queue working []) ≡ some j
                → ¬ IsClaimable 100 (queue working []) j)))
unfolding claim_next_job is_eligible record_event lower_is
claim_next_job-none_example = claim_next_job-none "w1" 60 100 (queue working []) (refl, tt) refl

claims-grow_example : 5 < 6
unfolding claim_next_job is_eligible record_event lower_is run set_runtime_stop
claims-grow_example =
    claims-grow (queue waiting []) (refl, tt) "w1" 60 100 first_claim refl
      (auto_op (set_stop false 200) ∷ []) "w2" 60 300 second_claim refl refl

transition_job-outcome_example :
    (((transition_job (transition "j1" "w1" 5 navigating) 120 (queue working [])).1 ≡ true)
      × (old : AutomationJob) × (get_job "j1" (queue working []) ≡ some old)
      × IsMover (transition "j1" "w1" 5 navigating) 120 old
      × (new : AutomationJob) × (get_job "j1"
            (transition_job (transition "j1" "w1" 5 navigating) 120 (queue working [])).0
          ≡ some new)
      × IsMoved (transition "j1" "w1" 5 navigating) old new)
    ⊎ ((transition_job (transition "j1" "w1" 5 navigating) 120 (queue working [])
          ≡ (queue working [], false))
        × ((j : AutomationJob)
            → get_job "j1" (queue working []) ≡ some j
            → ¬ IsMover (transition "j1" "w1" 5 navigating) 120 j))
transition_job-outcome_example =
    transition_job-outcome (transition "j1" "w1" 5 navigating) 120 (queue working []) (refl, tt)

enqueue_job-idempotent_example :
    enqueue_job "app" "other"
      (pos 5)
      1
      false
      false
      "g"
      60
      (enqueue_job "app" "generic" (pos 0) 3 false false "f" 50 (queue waiting [])).0
    ≡ ((enqueue_job "app" "generic" (pos 0) 3 false false "f" 50 (queue waiting [])).0, ok waiting)
unfolding enqueue_job
enqueue_job-idempotent_example =
    enqueue_job-idempotent "app" "generic" (pos 0) 3 false false "f" 50 (queue waiting []) waiting
      refl "other" (pos 5) 1 false false refl "g" 60

get_pending_notifications-ordered_example :
    AllDue true 100 (get_pending_notifications 5 true 100 (queue waiting []))
    × (is_by_age (get_pending_notifications 5 true 100 (queue waiting [])) ≡ true)
    × (length (get_pending_notifications 5 true 100 (queue waiting [])) ≤ 5)
get_pending_notifications-ordered_example =
    get_pending_notifications-ordered 5 true 100 (queue waiting [])
