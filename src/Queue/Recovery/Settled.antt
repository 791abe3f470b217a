-- ===== src/Queue/Recovery/Settled.antt =====
-- What the loop over the selected rows does to each job.
use job_applier.Base.{
  ℕ, ◌≡◌, ◌<◌, refl, sym, ap, ◌∙◌, ◌||◌, true, false, String, none, some, List, [], ◌∷◌, arith,
  IsKeyed, find_by, Bool-cases, inl, inr, str_eq, eq_iff, if◌then◌else◌,
}
use job_applier.Queue.State.{JobState, cancelled, ambiguous_submission, is_preparing, is_submitting}
use job_applier.Queue.Db.{AutomationJob, Db, get_job, job_id_of}
use job_applier.Queue.Lifecycle.{
  Phase, AutoMove, claim, doubt, cancel, skip, reset, reopen, Moves, here, next, is_claimable,
  is_reset_state, auto, ends_at_once, is_skippable,
}
use job_applier.Queue.Lifecycle.Laws.{Moves-map, Moves-generation}
use job_applier.Queue.Ambiguity.{
  AmbiguityArgs, may_become_ambiguous, as_ambiguous, mark_job_ambiguous,
}
use job_applier.Queue.Ambiguity.Moves.{mark_job_ambiguous-Acts}
use job_applier.Queue.Recovery.{mark_each}
use job_applier.Queue.Recovery.Moves.{mark_each-Acts}
use job_applier.Queue.Ambiguity.Rows.{mark_job_ambiguous-other, mark_job_ambiguous-marks}

-- An ambiguous job stays so.
ambiguous_idle :
    (s : JobState)
    → s ≡ ambiguous_submission
    → ((is_claimable s || (is_reset_state s || (is_preparing s || is_submitting s))) ≡ false)
      × (is_skippable s ≡ false)
      × ((if ends_at_once s then cancelled else s) ≡ s)
ambiguous_idle s h = rw h (refl, refl, refl)

AutoMove-ambiguous :
    (p q : Phase) → AutoMove p q → p.state ≡ ambiguous_submission → q.state ≡ ambiguous_submission
AutoMove-ambiguous p q (claim _ c s _ _) h = cc (rw h at c)
AutoMove-ambiguous p q (doubt _ s _ _ _) h = s
AutoMove-ambiguous p q (cancel s _ _ _) h = s ∙ (ambiguous_idle p.state h).2 ∙ h
AutoMove-ambiguous p q (skip c s _ _ _) h = cc (rw h at c)
AutoMove-ambiguous p q (reset c s _ _ _) h = cc (rw h at c)
AutoMove-ambiguous p q (reopen c s _ _ _) h = cc (h, c)

Moves-ambiguous :
    {p q : Phase}
    → Moves AutoMove p q
    → p.state ≡ ambiguous_submission
    → q.state ≡ ambiguous_submission
Moves-ambiguous here h = h
Moves-ambiguous (next m s) h = AutoMove-ambiguous _ _ s (Moves-ambiguous m h)

-- What the caller of the loop gives for a row that may have been submitted: the row's own id, a source
-- that holds its state, and expectations that it meets.
pub record Fits (args : AutomationJob → AmbiguityArgs) (now : ℕ) : Type 0 where
  pub same_id : (j : AutomationJob) → (args j).job_id ≡ j.id
  pub source :
      (j : AutomationJob) → is_submitting j.state ≡ true → (args j).is_source j.state ≡ true
  pub met :
      (j : AutomationJob)
      → is_submitting j.state ≡ true
      → may_become_ambiguous (args j) j.state now j ≡ true
  pub sources :
      (j : AutomationJob) (s : JobState)
      → (args j).is_source s ≡ true
      → (is_preparing s || is_submitting s) ≡ true

module _ (args : AutomationJob → AmbiguityArgs) (now : ℕ) (fits : Fits args now) (id : String) where
  -- A job that is not among the rows stays as it is.
  pub mark_each-other :
      (rows : List AutomationJob) (db : Db)
      → find_by job_id_of id rows ≡ none
      → get_job id (mark_each args now rows db).0 ≡ get_job id db
  unfolding mark_each
  mark_each-other [] db h = refl
  mark_each-other (row ∷ rows) db h =
      let other : str_eq (args row).job_id id ≡ false = rw (fits.same_id row) (ground arith) in
      mark_each-other rows (mark_job_ambiguous (args row) now db).0 (ground arith)
      ∙ mark_job_ambiguous-other (args row) now id db other

  -- A job among the rows that may have been submitted ends up as ambiguous, with a later generation.
  pub mark_each-settles :
      (rows : List AutomationJob) (db : Db) (j : AutomationJob)
      → IsKeyed job_id_of db.jobs
      → find_by job_id_of id rows ≡ some j
      → get_job id db ≡ some j
      → is_submitting j.state ≡ true
      → (j' : AutomationJob) × (get_job id (mark_each args now rows db).0 ≡ some j')
        × (j'.state ≡ ambiguous_submission)
        × (j.fencing_generation < j'.fencing_generation)
  unfolding mark_each
  mark_each-settles [] db j keyed here_is found submitting = cc here_is
  mark_each-settles (row ∷ rows) db j keyed here_is found submitting =
      let first = mark_job_ambiguous-Acts (args row) (fits.sources row) now db in
      elim (Bool-cases (str_eq row.id id)) [
        | inr e ↦
            mark_each-settles rows (mark_job_ambiguous (args row) now db).0 j (first.keyed keyed)
              (rw e at here_is)
              (mark_job_ambiguous-other (args row) now id db (rw (fits.same_id row) e) ∙ found)
              submitting
        | inl e ↦ settled_row (ground (arith, e)) (ground (arith, eq_iff row.id id))
      ]
    where
      settled_row :
          row ≡ j
          → row.id ≡ id
          → (j' : AutomationJob) × (get_job id
                (mark_each args now rows (mark_job_ambiguous (args row) now db).0).0
              ≡ some j')
            × (j'.state ≡ ambiguous_submission)
            × (j.fencing_generation < j'.fencing_generation)
      settled_row same its_id =
          let key : (args j).job_id ≡ id = fits.same_id j ∙ ap job_id_of (sym same) ∙ its_id in
          let marked =
            mark_job_ambiguous-marks (args j) now db j keyed (rw key found) submitting
              (fits.source j submitting) (fits.met j submitting) in
          let rest =
            mark_each-Acts now args fits.sources rows (mark_job_ambiguous (args row) now db).0 in
          let (j', found', moves) =
            rest.at id (as_ambiguous (args j) now j) (rw (same, sym key) marked) in
          let up = Moves-generation (Moves-map (λ p q m. auto m) moves) in
          (j', found', Moves-ambiguous moves refl, omega (arith, up))
