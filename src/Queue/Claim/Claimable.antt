-- ===== src/Queue/Claim/Claimable.antt =====
-- Which jobs a worker may take, said without the code's own test.
use job_applier.Base.{
  ◌≤◌, ◌&&◌, Option-cases, is_none, not_after, lower_is, ℕ, ◌≡◌, ◌⊎◌, refl, ◌||◌, true, false,
  Option, some, none, arith, Bool-cases, inl, inr,
}
use job_applier.Queue.State.{
  JobState, ready, claimed, navigating, filling, validating, retry_wait, state_eq, is_preparing,
}
use job_applier.Queue.State.Laws.{state_eq→eq}
use job_applier.Queue.Db.{AutomationJob, Application, Db, get_application}
use job_applier.Queue.Claim.{is_eligible}

-- A job that a worker may take, in the words of the queue: it is ready; or its retry has no time, or one that
-- has come; or its worker's lease has run out before the submission.
pub data Waits (now : ℕ) (j : AutomationJob) : Type 0 where
  fresh : j.state ≡ ready → Waits now j
  retry : j.state ≡ retry_wait → j.next_retry_at ≡ none → Waits now j
  due : (t : ℕ) → j.state ≡ retry_wait → j.next_retry_at ≡ some t → t ≤ now → Waits now j
  expired :
      (t : ℕ)
      → ((j.state ≡ claimed)
          ⊎ ((j.state ≡ navigating) ⊎ ((j.state ≡ filling) ⊎ (j.state ≡ validating))))
      → j.lease_expires_at ≡ some t
      → t ≤ now
      → Waits now j

-- It is not cancelled either, and its application is there and not dismissed.
pub record IsClaimable (now : ℕ) (db : Db) (j : AutomationJob) : Type 0 where
  pub alive : j.is_cancelled ≡ false
  pub application : Application
  pub known : get_application j.app_id db ≡ some application
  pub wanted : lower_is application.status "dismissed" ≡ false
  pub waits : Waits now j

not_after-cases : (o : Option ℕ) (n : ℕ) → not_after o n ≡ true → (t : ℕ) × (o ≡ some t) × (t ≤ n)
not_after-cases none n h = cc h
not_after-cases (some t) n h = (t, refl, ground arith)

is_none→eq : (o : Option ℕ) → is_none o ≡ true → o ≡ none
is_none→eq none h = refl
is_none→eq (some t) h = cc h

is_preparing-cases :
    (s : JobState)
    → is_preparing s ≡ true
    → (s ≡ claimed) ⊎ ((s ≡ navigating) ⊎ ((s ≡ filling) ⊎ (s ≡ validating)))
is_preparing-cases s h = ground (arith, h)

waits_of :
    (now : ℕ) (j : AutomationJob)
    → (state_eq j.state ready
        || ((state_eq j.state retry_wait
              && (is_none j.next_retry_at || not_after j.next_retry_at now))
            || (is_preparing j.state && not_after j.lease_expires_at now)))
      ≡ true
    → Waits now j
waits_of now j h = elim (Bool-cases (state_eq j.state ready)) [
  | inl e ↦ fresh (state_eq→eq j.state ready e)
  | inr e ↦ elim (Bool-cases (state_eq j.state retry_wait)) [
    | inl r ↦ elim (Bool-cases (is_none j.next_retry_at)) [
      | inl n ↦ retry (state_eq→eq j.state retry_wait r) (is_none→eq j.next_retry_at n)
      | inr n ↦
          let s = state_eq→eq j.state retry_wait r in
          let (t, at, past) = not_after-cases j.next_retry_at now (ground (arith, rw s at h)) in
          due t s at past
    ]
    | inr r ↦
        let (t, at, past) = not_after-cases j.lease_expires_at now (ground arith) in
        expired t (is_preparing-cases j.state (ground arith)) at past
  ]
]

pub is_eligible-IsClaimable :
    (now : ℕ) (db : Db) (j : AutomationJob) → is_eligible now db j ≡ true → IsClaimable now db j
unfolding is_eligible
is_eligible-IsClaimable now db j h = elim (Option-cases (get_application j.app_id db)) [
  | inl e ↦ ground (arith, rw e at h)
  | inr (a, e) ↦ record {
    alive = ground arith;
    application = a;
    known = e;
    wanted = ground (arith, rw e at h);
    waits = waits_of now j (ground (arith, rw e at h));
  }
]

waits-test :
    (now : ℕ) (j : AutomationJob)
    → Waits now j
    → (state_eq j.state ready
        || ((state_eq j.state retry_wait
              && (is_none j.next_retry_at || not_after j.next_retry_at now))
            || (is_preparing j.state && not_after j.lease_expires_at now)))
      ≡ true
waits-test now j (fresh s) = rw s
waits-test now j (retry s e) = rw (s, e)
waits-test now j (due t s e le) = rw (s, e) (ground arith)
waits-test now j (expired t (inl s) e le) = rw (s, e) (ground arith)
waits-test now j (expired t (inr (inl s)) e le) = rw (s, e) (ground arith)
waits-test now j (expired t (inr (inr (inl s))) e le) = rw (s, e) (ground arith)
waits-test now j (expired t (inr (inr (inr s))) e le) = rw (s, e) (ground arith)

pub IsClaimable-is_eligible :
    (now : ℕ) (db : Db) (j : AutomationJob) → IsClaimable now db j → is_eligible now db j ≡ true
unfolding is_eligible
IsClaimable-is_eligible now db j c = rw (c.alive, c.known, c.wanted) (waits-test now j c.waits)
