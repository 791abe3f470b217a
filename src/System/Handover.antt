-- ===== src/System/Handover.antt =====
-- An operator takes the browser over: what the workers may still do (src/job_applier/automation/queue.py).
use job_applier.Base.{ℕ, ap, ◌≡◌, true, String, Option, none, inl, inr}
use job_applier.Queue.Db.{Db, Result, ok, raised, runtime_error}
use job_applier.Queue.Claim.{claim_next_job}
use job_applier.Queue.Claim.Selection.{claim_next_job-paused}
use job_applier.Queue.Fence.{ClickArgs, begin_submit_click_fence}
use job_applier.Queue.Fence.Outcome.{begin_submit_click_fence-paused}
use job_applier.Queue.Takeover.{LeaseArg, Reply, success, claim_manual_takeover}
use job_applier.Queue.Takeover.Exclusion.{claim_manual_takeover-outcome}

granted_pauses :
    (owner : String) (l : LeaseArg) (now utc : ℕ) (db : Db) (expires : Option ℕ)
    → (claim_manual_takeover owner l now utc db).1 ≡ ok (success expires)
    → (claim_manual_takeover owner l now utc db).0.control.is_paused ≡ true
granted_pauses owner l now utc db expires h =
    elim (claim_manual_takeover-outcome owner now utc db l) [
      | inl (_, e) ↦ cc (h, ap (λ (r : Db × Result Reply). r.1) e)
      | inr (s, _, _, _, inl (_, _, _, e)) ↦ cc (h, ap (λ (r : Db × Result Reply). r.1) e)
      | inr (s, _, _, _, inr (_, _, lease)) ↦ lease.paused
    ]

-- A granted takeover stops the workers at once: from the database that it leaves no worker claims a job and
-- no worker gets the fence of a submit click, at whatever time they ask.
pub claim_manual_takeover-stops_workers :
    (owner : String) (l : LeaseArg) (now utc : ℕ) (db : Db) (expires : Option ℕ)
    → (claim_manual_takeover owner l now utc db).1 ≡ ok (success expires)
    → (worker_id : String) (lease_seconds later : ℕ) (c : ClickArgs) (later_utc : ℕ)
    → (claim_next_job worker_id lease_seconds later (claim_manual_takeover owner l now utc db).0
        ≡ ((claim_manual_takeover owner l now utc db).0, none))
      × (begin_submit_click_fence c later later_utc (claim_manual_takeover owner l now utc db).0
          ≡ raised runtime_error)
claim_manual_takeover-stops_workers owner l now utc db expires h worker_id lease_seconds later c
      later_utc =
    let paused = granted_pauses owner l now utc db expires h in
    (
      claim_next_job-paused worker_id lease_seconds later _ paused,
      begin_submit_click_fence-paused c later later_utc _ paused,
    )
