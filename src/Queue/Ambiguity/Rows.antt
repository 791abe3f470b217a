-- ===== src/Queue/Ambiguity/Rows.antt =====
-- What marking a job as ambiguous does to the rows of the table.
use job_applier.Base.{
  ℕ, ◌≡◌, refl, ap, ◌||◌, not, true, false, String, Option, none, some, arith, IsKeyed, find_by,
  find_by-update_where, count_where, count_where-keyed, Bool-cases, inl, inr, str_eq, eq_iff,
  eq_refl, ◌==◌, key-find_by, updated?,
}
use job_applier.Queue.State.{ambiguous_submission, state_eq, is_submitting}
use job_applier.Queue.Db.{AutomationJob, Db, get_job, job_id_of}
use job_applier.Queue.Ambiguity.{
  AmbiguityArgs, fits_owner, may_become_ambiguous, as_ambiguous, make_ambiguous, mark_row,
  mark_job_ambiguous, is_projected,
}
use job_applier.Queue.Ambiguity.Moves.{project_ambiguity-jobs}

module _ (m : AmbiguityArgs) (now : ℕ) (id : String) where
  make_ambiguous-other :
      (row : AutomationJob) (db : Db)
      → str_eq m.job_id id ≡ false
      → get_job id (make_ambiguous m row now db).0 ≡ get_job id db
  unfolding make_ambiguous
  make_ambiguous-other row db h =
      elim (Bool-cases (count_where (may_become_ambiguous m row.state now) db.jobs == 1)) [
        | inl e ↦ simp e (
            rw
              (
                project_ambiguity-jobs m row now _,
                find_by-update_where job_id_of (may_become_ambiguous m row.state now)
                    (as_ambiguous m now) (λ r. refl) id db.jobs,
              )
              (unasked (get_job id db) (λ j f. key-find_by job_id_of id db.jobs f)))
        | inr e ↦ simp e
      ]
    where
      other_id : (j : AutomationJob) → j.id ≡ id → str_eq j.id m.job_id ≡ false
      other_id j same = elim (Bool-cases (str_eq j.id m.job_id)) [
        | inl e ↦ ground (arith, eq_iff j.id m.job_id, eq_iff m.job_id id)
        | inr e ↦ e
      ]

      unasked :
          (o : Option AutomationJob)
          → ((j : AutomationJob) → o ≡ some j → j.id ≡ id)
          → updated? (may_become_ambiguous m row.state now) (as_ambiguous m now) o ≡ o
      unasked none k = refl
      unasked (some j) k = rw (other_id j (k j refl))

  mark_row-other :
      (o : Option AutomationJob) (db : Db)
      → str_eq m.job_id id ≡ false
      → get_job id (mark_row m o now db).0 ≡ get_job id db
  unfolding mark_row
  mark_row-other none db h = refl
  mark_row-other (some row) db h = elim (Bool-cases (state_eq row.state ambiguous_submission)) [
    | inl e ↦ elim (Bool-cases (not m.repair_existing || is_projected row db)) [
      | inl f ↦ simp (e, f)
      | inr f ↦ simp (e, f) (ap (find_by job_id_of id) (project_ambiguity-jobs m row now db))
    ]
    | inr e ↦ elim (Bool-cases (m.is_source row.state)) [
      | inl f ↦ simp (e, f) (make_ambiguous-other row db h)
      | inr f ↦ simp (e, f)
    ]
  ]

  -- The other jobs stay as they are.
  pub mark_job_ambiguous-other :
      (db : Db)
      → str_eq m.job_id id ≡ false
      → get_job id (mark_job_ambiguous m now db).0 ≡ get_job id db
  unfolding mark_job_ambiguous
  mark_job_ambiguous-other db h = mark_row-other (get_job m.job_id db) db h

-- The job is marked where the caller's expectations are met.
pub mark_job_ambiguous-marks :
    (m : AmbiguityArgs) (now : ℕ) (db : Db) (j : AutomationJob)
    → IsKeyed job_id_of db.jobs
    → get_job m.job_id db ≡ some j
    → is_submitting j.state ≡ true
    → m.is_source j.state ≡ true
    → may_become_ambiguous m j.state now j ≡ true
    → get_job m.job_id (mark_job_ambiguous m now db).0 ≡ some (as_ambiguous m now j)
unfolding mark_job_ambiguous mark_row make_ambiguous
mark_job_ambiguous-marks m now db j keyed found submitting source fits =
    let differs : state_eq j.state ambiguous_submission ≡ false = ground arith in
    let one_row : (count_where (may_become_ambiguous m j.state now) db.jobs == 1) ≡ true = rw (
      count_where-keyed job_id_of m.job_id (may_become_ambiguous m j.state now)
          (λ x h. ground arith) db.jobs keyed,
      found,
      fits,
    ) in
    simp found (
      simp differs (
        simp source (
          simp one_row (
            rw (
              project_ambiguity-jobs m j now _,
              find_by-update_where job_id_of (may_become_ambiguous m j.state now)
                  (as_ambiguous m now) (λ r. refl) m.job_id db.jobs,
              found,
              fits,
            )))))

own_owner : (owner : Option String) → fits_owner owner owner ≡ true
own_owner none = refl
own_owner (some w) = eq_refl w

-- A row meets the expectations that are read from it.
pub may_become_ambiguous-own :
    (m : AmbiguityArgs) (now : ℕ) (j : AutomationJob)
    → m.job_id ≡ j.id
    → m.expected_worker_id ≡ j.lease_owner
    → m.expected_generation ≡ some j.fencing_generation
    → m.require_live_lease ≡ false
    → may_become_ambiguous m j.state now j ≡ true
may_become_ambiguous-own m now j id owner generation lease =
    rw (id, owner, generation, lease) (ground (arith, eq_refl j.id, own_owner j.lease_owner))
