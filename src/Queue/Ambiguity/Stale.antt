-- ===== src/Queue/Ambiguity/Stale.antt =====
-- A worker whose generation is over marks nothing.
use job_applier.Base.{ℕ, ◌≡◌, refl, false, Option, none, some, arith, IsKeyed, Bool-cases, inl, inr}
use job_applier.Queue.State.{state_eq, ambiguous_submission}
use job_applier.Queue.Db.{AutomationJob, Db, get_job, job_id_of}
use job_applier.Queue.Ambiguity.{
  AmbiguityArgs, may_become_ambiguous, make_ambiguous, mark_row, mark_job_ambiguous,
}
use job_applier.Queue.Transition.Stale.{IsStale, count_where-stale}

module _ (m : AmbiguityArgs) (g now : ℕ) (db : Db) (expects : m.expected_generation ≡ some g)
    (keyed : IsKeyed job_id_of db.jobs) (stale : IsStale db m.job_id g) where
  make_ambiguous-stale : (row : AutomationJob) → make_ambiguous m row now db ≡ (db, false)
  unfolding make_ambiguous
  make_ambiguous-stale row = rw (
      count_where-stale db m.job_id g keyed stale (may_become_ambiguous m row.state now)
        (λ x h. ground arith))

  mark_row-stale :
      m.repair_existing ≡ false → (o : Option AutomationJob) → mark_row m o now db ≡ (db, false)
  unfolding mark_row
  mark_row-stale once none = refl
  mark_row-stale once (some row) = elim (Bool-cases (state_eq row.state ambiguous_submission)) [
    | inl e ↦ simp (e, once)
    | inr e ↦ elim (Bool-cases (m.is_source row.state)) [
      | inl f ↦ simp (e, f) (make_ambiguous-stale row)
      | inr f ↦ simp (e, f)
    ]
  ]

  pub mark_job_ambiguous-stale :
      m.repair_existing ≡ false → mark_job_ambiguous m now db ≡ (db, false)
  unfolding mark_job_ambiguous
  mark_job_ambiguous-stale once = mark_row-stale once (get_job m.job_id db)
