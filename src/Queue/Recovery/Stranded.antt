-- ===== src/Queue/Recovery/Stranded.antt =====
-- What the sweep does to a submission whose lease has run out.
use job_applier.Base.{
  ◌≤◌, ◌⊎◌, inl, inr, ◌||◌, Option, none, is_none, not_after, Bool-cases, ℕ, ◌≡◌, ◌<◌, refl, true,
  String, some, arith, IsKeyed, select_where, find_by-select_where,
}
use job_applier.Queue.State.{
  JobState, submit_intent, verifying, ambiguous_submission, is_submitting,
}
use job_applier.Queue.Db.{AutomationJob, Db, get_job, job_id_of}
use job_applier.Queue.Ambiguity.Rows.{may_become_ambiguous-own}
use job_applier.Queue.Recovery.{is_stranded, stranded_args, reconcile_stranded_jobs}
use job_applier.Queue.Recovery.Settled.{Fits, mark_each-other, mark_each-settles}

stranded-Fits : (fresh : String → String) (now : ℕ) → Fits (stranded_args fresh) now
stranded-Fits fresh now = record {
  same_id = λ j. refl;
  source = λ j h. rw h (ground arith);
  met = λ j h. may_become_ambiguous-own (stranded_args fresh j) now j refl refl refl refl;
  sources = λ j s h. h;
}

-- A submission that no worker is at: the job is in submit_intent or verifying, and has no lease or one that has
-- run out.
pub record IsAbandoned (now : ℕ) (j : AutomationJob) : Type 0 where
  pub state : (j.state ≡ submit_intent) ⊎ (j.state ≡ verifying)
  pub unleased : (j.lease_expires_at ≡ none) ⊎ ((t : ℕ) × (j.lease_expires_at ≡ some t) × (t ≤ now))

submitting-cases : (s : JobState) → is_submitting s ≡ true → (s ≡ submit_intent) ⊎ (s ≡ verifying)
submitting-cases s h = ground (arith, h)

unleased-cases :
    (o : Option ℕ) (now : ℕ)
    → (is_none o || not_after o now) ≡ true
    → (o ≡ none) ⊎ ((t : ℕ) × (o ≡ some t) × (t ≤ now))
unleased-cases none now h = inl refl
unleased-cases (some t) now h = inr (t, refl, ground arith)

is_stranded-IsAbandoned :
    (now : ℕ) (j : AutomationJob) → is_stranded now j ≡ true → IsAbandoned now j
is_stranded-IsAbandoned now j h = record {
  state = submitting-cases j.state (ground arith);
  unleased = unleased-cases j.lease_expires_at now (ground arith);
}

unleased-test :
    (o : Option ℕ) (now : ℕ)
    → ((o ≡ none) ⊎ ((t : ℕ) × (o ≡ some t) × (t ≤ now)))
    → (is_none o || not_after o now) ≡ true
unleased-test o now (inl e) = rw e
unleased-test o now (inr (t, e, le)) = rw e (ground arith)

submitting-test : (s : JobState) → ((s ≡ submit_intent) ⊎ (s ≡ verifying)) → is_submitting s ≡ true
submitting-test s (inl e) = rw e
submitting-test s (inr e) = rw e

IsAbandoned-is_stranded :
    (now : ℕ) (j : AutomationJob) → IsAbandoned now j → is_stranded now j ≡ true
IsAbandoned-is_stranded now j a =
    rw (submitting-test j.state a.state) (unleased-test j.lease_expires_at now a.unleased)

-- The sweep leaves no abandoned submission behind: a job in submit_intent or verifying with no lease, or with
-- one that has run out, ends in ambiguous_submission under a greater fencing generation, and every other
-- job is as it was. It is assumed that no two jobs have one id, and that nothing else runs during the sweep.
pub reconcile_stranded_jobs-settles :
    (fresh : String → String) (now : ℕ) (db : Db)
    → IsKeyed job_id_of db.jobs
    → (id : String) (j : AutomationJob) → get_job id db ≡ some j
    → (IsAbandoned now j
        → (j' : AutomationJob) × (get_job id (reconcile_stranded_jobs fresh now db).0 ≡ some j')
          × (j'.state ≡ ambiguous_submission)
          × (j.fencing_generation < j'.fencing_generation))
      × (¬ IsAbandoned now j → get_job id (reconcile_stranded_jobs fresh now db).0 ≡ some j)
unfolding reconcile_stranded_jobs
reconcile_stranded_jobs-settles fresh now db keyed id j found =
    let fits = stranded-Fits fresh now in
    let rows = select_where (is_stranded now) db.jobs in
    let chosen = find_by-select_where job_id_of id (is_stranded now) db.jobs j keyed found in
    (
      λ a.
          let h = IsAbandoned-is_stranded now j a in
          mark_each-settles (stranded_args fresh) now fits id rows db j keyed (rw h at chosen) found
            (ground arith),
      λ other. elim (Bool-cases (is_stranded now j)) [
        | inl h ↦ absurd (other (is_stranded-IsAbandoned now j h))
        | inr h ↦
            rw (mark_each-other (stranded_args fresh) now fits id rows db (rw h at chosen)) found
      ],
    )
