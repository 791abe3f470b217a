-- ===== src/Queue/Claim/Selection.antt =====
-- Which job a claim takes, and what it makes of it.
use job_applier.Base.{
  ◌+◌, ◌≤◌, ap, ℕ, ◌≡◌, ◌⊎◌, refl, sym, ◌∙◌, ◌||◌, true, false, String, Option, some, none, arith,
  IsKeyed, Bool-cases, inl, inr, best_where, best_where_passes, best_where-find_by,
  best_where-IsBest, is_best_against, find_by-update_where, ℤ, pos, negsuc, ltb_ℤ, str_eq, eq_refl,
}
use job_applier.Queue.State.{claimed}
use job_applier.Queue.Db.{AutomationJob, Db, get_job, job_id_of}
use job_applier.Queue.Claim.Claimable.{
  IsClaimable, is_eligible-IsClaimable, IsClaimable-is_eligible,
}
use job_applier.Queue.Claim.{is_eligible, comes_first, as_claimed, claim_chosen, claim_next_job}
use job_applier.Queue.Claim.Moves.{claim_chosen-jobs}

ltb_ℤ-irreflexive : (x : ℤ) → ltb_ℤ x x ≡ false
ltb_ℤ-irreflexive (pos n) = ground arith
ltb_ℤ-irreflexive (negsuc n) = ground arith

ltb_ℤ-asymmetric : (x y : ℤ) → ltb_ℤ x y ≡ true → ltb_ℤ y x ≡ false
ltb_ℤ-asymmetric x y h = ground arith

ltb_ℤ-negtransitive : (x y z : ℤ) → ltb_ℤ x y ≡ false → ltb_ℤ y z ≡ false → ltb_ℤ x z ≡ false
ltb_ℤ-negtransitive x y z h k = ground arith

comes_first-irreflexive : (a : AutomationJob) → comes_first a a ≡ false
comes_first-irreflexive a = rw (ltb_ℤ-irreflexive a.priority) (ground arith)

comes_first-asymmetric : (a b : AutomationJob) → comes_first a b ≡ true → comes_first b a ≡ false
comes_first-asymmetric a b h =
    ground (arith, ltb_ℤ-asymmetric a.priority b.priority, ltb_ℤ-asymmetric b.priority a.priority)

comes_first-negtransitive :
    (a b c : AutomationJob)
    → comes_first a b ≡ false
    → comes_first b c ≡ false
    → comes_first a c ≡ false
comes_first-negtransitive a b c h k = ground (
  arith,
  ltb_ℤ-negtransitive a.priority b.priority c.priority,
  ltb_ℤ-negtransitive c.priority b.priority a.priority,
  ltb_ℤ-asymmetric a.priority b.priority,
  ltb_ℤ-asymmetric b.priority a.priority,
  ltb_ℤ-asymmetric b.priority c.priority,
  ltb_ℤ-asymmetric c.priority b.priority,
  ltb_ℤ-negtransitive b.priority c.priority a.priority,
  ltb_ℤ-negtransitive c.priority a.priority b.priority,
  ltb_ℤ-negtransitive a.priority c.priority b.priority,
  ltb_ℤ-negtransitive b.priority a.priority c.priority,
)

some_injective : {a b : AutomationJob} → some a ≡ some b → a ≡ b
some_injective e = cc

-- What a claim promises of the job `j` that it returns.
pub record ClaimOf (worker_id : String) (lease_seconds now : ℕ) (db : Db) (after : Db)
    (j : AutomationJob) : Type 0 where
  -- the row before
  pub old : AutomationJob
  pub found : get_job old.id db ≡ some old
  pub eligible : IsClaimable now db old
  pub unpaused : db.control.is_paused ≡ false
  pub unstopped : db.control.is_stopped ≡ false
  -- the row after
  pub same_id : j.id ≡ old.id
  pub stored : get_job j.id after ≡ some j
  pub state : j.state ≡ claimed
  pub owner : j.lease_owner ≡ some worker_id
  pub until : j.lease_expires_at ≡ some (now + lease_seconds)
  pub generation : j.fencing_generation ≡ old.fencing_generation + 1
  pub counted : j.attempt_count ≡ old.attempt_count + 1
  pub limit : j.max_retries ≡ old.max_retries
  pub alive : j.is_cancelled ≡ old.is_cancelled

order :
    (j other : AutomationJob)
    → comes_first other j ≡ false
    → (ltb_ℤ j.priority other.priority ≡ false)
      × (other.priority ≡ j.priority → j.created_at ≤ other.created_at)
order j other h = (ground arith, λ e. ground (arith, e, ltb_ℤ-irreflexive j.priority, rw e at h))

module _ (worker_id : String) (lease_seconds now : ℕ) (db : Db)
    (keyed : IsKeyed job_id_of db.jobs) where
  chosen_row :
      (old : AutomationJob)
      → get_job old.id db ≡ some old
      → get_job old.id (claim_chosen worker_id lease_seconds now (some old) db).0
        ≡ some (as_claimed worker_id lease_seconds now old old)
  chosen_row old found = rw (
    claim_chosen-jobs worker_id lease_seconds now old db,
    find_by-update_where job_id_of (λ (r : AutomationJob). str_eq r.id old.id)
        (as_claimed worker_id lease_seconds now old) (λ r. refl) old.id db.jobs,
    found,
    eq_refl old.id,
  )

  is_best :
      (id : String) {other : AutomationJob}
      → get_job id db ≡ some other
      → is_eligible now db other ≡ true
      → is_best_against comes_first other (best_where comes_first (is_eligible now db) db.jobs)
        ≡ true
  is_best id found eligible =
      best_where-IsBest comes_first comes_first-irreflexive comes_first-asymmetric
        comes_first-negtransitive (is_eligible now db) job_id_of id db.jobs found eligible

  none_comes_before :
      (old : AutomationJob)
      → best_where comes_first (is_eligible now db) db.jobs ≡ some old
      → (id : String) (other : AutomationJob) → get_job id db ≡ some other
      → is_eligible now db other ≡ true
      → comes_first other old ≡ false
  none_comes_before old e id other found eligible =
      let best = is_best id found eligible in ground (arith, rw e at best)

  -- What the claim returns is the row that it stored.
  chosen_returned :
      (old : AutomationJob)
      → (claim_chosen worker_id lease_seconds now (some old) db).1
        ≡ get_job old.id (claim_chosen worker_id lease_seconds now (some old) db).0
  unfolding claim_chosen
  chosen_returned old = refl

  none_returned : (claim_chosen worker_id lease_seconds now none db) ≡ (db, none)
  unfolding claim_chosen
  none_returned = refl

  claim_chosen-result :
      (j : AutomationJob) (o : Option AutomationJob)
      → best_where comes_first (is_eligible now db) db.jobs ≡ o
      → (db.control.is_paused || db.control.is_stopped) ≡ false
      → (claim_chosen worker_id lease_seconds now o db).1 ≡ some j
      → ClaimOf worker_id lease_seconds now db (claim_chosen worker_id lease_seconds now o db).0 j
  claim_chosen-result j none e run h = cc (rw none_returned at h)
  claim_chosen-result j (some old) e run h =
      let found =
        best_where-find_by job_id_of comes_first (is_eligible now db) db.jobs old keyed e in
      let stored = chosen_row old found in
      let row : j ≡ as_claimed worker_id lease_seconds now old old =
        some_injective (sym h ∙ chosen_returned old ∙ stored) in
      record {
        old = old;
        found = found;
        eligible =
            is_eligible-IsClaimable now db old
              (best_where_passes comes_first (is_eligible now db) db.jobs e);
        unpaused = ground arith;
        unstopped = ground arith;
        same_id = ap (λ x. x.id) row;
        stored = rw row stored;
        state = ap (λ x. x.state) row;
        owner = ap (λ x. x.lease_owner) row;
        until = ap (λ x. x.lease_expires_at) row;
        generation = ap (λ x. x.fencing_generation) row;
        counted = ap (λ x. x.attempt_count) row;
        limit = ap (λ x. x.max_retries) row;
        alive = ap (λ x. x.is_cancelled) row;
      }

  -- A claim that returns a job: the queue was neither paused nor stopped, and the job was not cancelled, its
  -- application not dismissed, and it was ready, or due for a retry, or left by a worker before the submission
  -- with a lease that has run out. The row that is returned is the one that is stored under the job's id: it is
  -- claimed, the worker owns it with a lease of the given length and the next generation, one more attempt is
  -- counted, and the limit of retries is as it was.
  -- It is assumed that no two jobs have one id.
  pub claim_next_job-result :
      (j : AutomationJob)
      → (claim_next_job worker_id lease_seconds now db).1 ≡ some j
      → ClaimOf worker_id lease_seconds now db (claim_next_job worker_id lease_seconds now db).0 j
  unfolding claim_next_job
  claim_next_job-result j h = elim (Bool-cases (db.control.is_paused || db.control.is_stopped)) [
    | inl e ↦ cc (rw e at h)
    | inr e ↦ rw e (
        claim_chosen-result j (best_where comes_first (is_eligible now db) db.jobs) refl e
          (rw e at h))
  ]

  claim_chosen-none :
      (o : Option AutomationJob)
      → best_where comes_first (is_eligible now db) db.jobs ≡ o
      → (claim_chosen worker_id lease_seconds now o db).1 ≡ none
      → (claim_chosen worker_id lease_seconds now o db ≡ (db, none))
        × ((id : String) (j : AutomationJob)
            → get_job id db ≡ some j
            → is_eligible now db j ≡ false)
  claim_chosen-none none e h = (
    none_returned,
    λ id j found. elim (Bool-cases (is_eligible now db j)) [
      | inl fits ↦ cc (rw e at (is_best id found fits))
      | inr fails ↦ fails
    ],
  )
  claim_chosen-none (some old) e h = cc (
    h,
    chosen_returned old,
    chosen_row old
        (best_where-find_by job_id_of comes_first (is_eligible now db) db.jobs old keyed e),
  )

  -- No job that could be claimed has a higher priority than the one that a claim returns, and none of the same
  -- priority is older. It is assumed that no two jobs have one id.
  pub claim_next_job-first :
      (j : AutomationJob)
      → (claim_next_job worker_id lease_seconds now db).1 ≡ some j
      → (id : String) (other : AutomationJob) → get_job id db ≡ some other
      → IsClaimable now db other
      → (ltb_ℤ j.priority other.priority ≡ false)
        × (other.priority ≡ j.priority → j.created_at ≤ other.created_at)
  unfolding claim_next_job
  claim_next_job-first j h id other found claimable =
      order j other (elim (Bool-cases (db.control.is_paused || db.control.is_stopped)) [
        | inl e ↦ cc (rw e at h)
        | inr e ↦ go (best_where comes_first (is_eligible now db) db.jobs) refl (rw e at h)
      ])
    where
      go :
          (o : Option AutomationJob)
          → best_where comes_first (is_eligible now db) db.jobs ≡ o
          → (claim_chosen worker_id lease_seconds now o db).1 ≡ some j
          → comes_first other j ≡ false
      go none e h' = cc h'
      go (some old) e h' =
          rw
            (some_injective (
              sym h'
              ∙ chosen_returned old
              ∙ chosen_row old (
                  best_where-find_by job_id_of comes_first (is_eligible now db) db.jobs old keyed
                    e)))
            (none_comes_before old e id other found
              (IsClaimable-is_eligible now db other claimable))

  -- A claim that returns no job leaves the database as it is; the queue was paused or stopped, or none of its
  -- jobs could be claimed. It is assumed that no two jobs have one id.
  pub claim_next_job-none :
      (claim_next_job worker_id lease_seconds now db).1 ≡ none
      → (claim_next_job worker_id lease_seconds now db ≡ (db, none))
        × ((db.control.is_paused ≡ true)
            ⊎ ((db.control.is_stopped ≡ true)
                ⊎ ((id : String) (j : AutomationJob)
                    → get_job id db ≡ some j
                    → ¬ IsClaimable now db j)))
  unfolding claim_next_job
  claim_next_job-none h = elim (Bool-cases (db.control.is_paused || db.control.is_stopped)) [
    | inl e ↦ (
      rw e,
      elim (Bool-cases db.control.is_paused) [ inl p ↦ inl p | inr p ↦ inr (inl (ground arith)) ],
    )
    | inr e ↦
        let (same, empty) =
          claim_chosen-none (best_where comes_first (is_eligible now db) db.jobs) refl
            (rw e at h) in
        (
          rw e same,
          inr (inr (λ id j found c. cc (empty id j found, IsClaimable-is_eligible now db j c))),
        )
  ]

pub claim_next_job-paused :
    (worker_id : String) (lease_seconds now : ℕ) (db : Db)
    → db.control.is_paused ≡ true
    → claim_next_job worker_id lease_seconds now db ≡ (db, none)
unfolding claim_next_job
claim_next_job-paused worker_id lease_seconds now db h = simp h
