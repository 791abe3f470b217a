-- ===== src/Queue/Transition/Outcome.antt =====
-- What a transition does where it is allowed, and where it is not.
use job_applier.Base.{
  ℕ, ◌<◌, ◌+◌, ◌||◌, Option, none, false, str_eq, eq_refl, is_text→eq, after, key-find_by, ◌≡◌, ◌⊎◌,
  refl, sym, ◌∙◌, true, false, some, arith, IsKeyed, count_where, count_where-keyed, Bool-cases,
  Option-cases, inl, inr, ltb, if◌then◌else◌, passes?, find_by-update_where,
}
use job_applier.Queue.Db.{AutomationJob, Db, get_job, job_id_of}
use job_applier.Queue.Transition.{TransitionArgs, may_move, moved, transition_job}
use job_applier.Queue.Transition.Moves.{transition_job-jobs}

-- The job before and after a transition that changed it.
pub record MoveOf (t : TransitionArgs) (now : ℕ) (before after : Db) : Type 0 where
  pub old : AutomationJob
  pub found : get_job t.job_id before ≡ some old
  pub allowed : may_move t now old ≡ true
  pub stored : get_job t.job_id after ≡ some (moved t now old)

-- The worker owns the job under its generation; the job is not cancelled; and where that is asked, its
-- lease is longer than the margin.
pub record IsMover (t : TransitionArgs) (now : ℕ) (j : AutomationJob) : Type 0 where
  pub owner : j.lease_owner ≡ some t.worker_id
  pub generation : j.fencing_generation ≡ t.generation
  pub alive : j.is_cancelled ≡ false
  pub live :
      (t.require_live_lease || ltb 0 t.required_lease_margin_seconds) ≡ true
      → (until : ℕ) × (j.lease_expires_at ≡ some until)
        × (now + t.required_lease_margin_seconds < until)

-- The row that a transition stored.
pub record IsMoved (t : TransitionArgs) (old new : AutomationJob) : Type 0 where
  pub state : new.state ≡ t.to_state
  pub owner : new.lease_owner ≡ old.lease_owner
  pub until : new.lease_expires_at ≡ old.lease_expires_at
  pub generation : new.fencing_generation ≡ old.fencing_generation
  pub alive : new.is_cancelled ≡ old.is_cancelled

moved-IsMoved : (t : TransitionArgs) (now : ℕ) (j : AutomationJob) → IsMoved t j (moved t now j)
moved-IsMoved t now j = record {
  state = refl;
  owner = refl;
  until = refl;
  generation = refl;
  alive = refl;
}

pub after-until : (o : Option ℕ) (n : ℕ) → after o n ≡ true → (u : ℕ) × (o ≡ some u) × (n < u)
after-until none n h = cc h
after-until (some u) n h = (u, refl, ground arith)

pub may_move-IsMover :
    (t : TransitionArgs) (now : ℕ) (j : AutomationJob) → may_move t now j ≡ true → IsMover t now j
may_move-IsMover t now j h = record {
  owner = is_text→eq j.lease_owner t.worker_id (ground arith);
  generation = ground arith;
  alive = ground arith;
  live = λ asked.
      after-until j.lease_expires_at (now + t.required_lease_margin_seconds) (ground arith);
}

IsMover-may_move :
    (t : TransitionArgs) (now : ℕ) (j : AutomationJob)
    → str_eq j.id t.job_id ≡ true
    → IsMover t now j
    → may_move t now j ≡ true
IsMover-may_move t now j id m =
    elim (Bool-cases (t.require_live_lease || ltb 0 t.required_lease_margin_seconds)) [
      | inl e ↦
          let (u, until, long) = m.live e in
          rw (id, m.owner, m.generation, m.alive, e, until) (ground (arith, eq_refl t.worker_id))
      | inr e ↦ rw (id, m.owner, m.generation, m.alive, e) (ground (arith, eq_refl t.worker_id))
    ]

module _ (t : TransitionArgs) (now : ℕ) (db : Db) (keyed : IsKeyed job_id_of db.jobs) where
  count_of :
      count_where (may_move t now) db.jobs
      ≡ (if passes? (may_move t now) (get_job t.job_id db) then 1 else 0)
  count_of =
      count_where-keyed job_id_of t.job_id (may_move t now) (λ x h. ground arith) db.jobs keyed

  -- A transition returns True exactly where the row of the job passes its test.
  answer : (transition_job t now db).1 ≡ passes? (may_move t now) (get_job t.job_id db)
  unfolding transition_job
  answer = elim (Bool-cases (passes? (may_move t now) (get_job t.job_id db))) [
    | inl e ↦ rw (count_of, e)
    | inr e ↦ rw (count_of, e)
  ]

  -- Where no row moved, nothing changed.
  pub transition_job-false :
      (transition_job t now db).1 ≡ false → transition_job t now db ≡ (db, false)
  unfolding transition_job
  transition_job-false h = elim (Bool-cases (ltb 0 (count_where (may_move t now) db.jobs))) [
    | inl e ↦ cc (rw e at h)
    | inr e ↦ rw e
  ]

  -- Where it returned True, the job's row was moved.
  pub transition_job-true :
      (transition_job t now db).1 ≡ true → MoveOf t now db (transition_job t now db).0
  transition_job-true h = elim (Option-cases (get_job t.job_id db)) [
    | inl e ↦ cc (rw e at (sym answer ∙ h))
    | inr (j, e) ↦
        let allowed : may_move t now j ≡ true = rw e at (sym answer ∙ h) in
        record {
          old = j;
          found = e;
          allowed = allowed;
          stored = rw (
            transition_job-jobs t now db,
            find_by-update_where job_id_of (may_move t now) (moved t now) (λ r. refl) t.job_id
                db.jobs,
            e,
            allowed,
          );
        }
  ]

  pub transition_job-IsMoved :
      (transition_job t now db).1 ≡ true
      → (old : AutomationJob) × (get_job t.job_id db ≡ some old)
        × IsMover t now old
        × (new : AutomationJob) × (get_job t.job_id (transition_job t now db).0 ≡ some new)
        × IsMoved t old new
  transition_job-IsMoved h =
      let move = transition_job-true h in
      (
        move.old,
        move.found,
        may_move-IsMover t now move.old move.allowed,
        moved t now move.old,
        move.stored,
        moved-IsMoved t now move.old,
      )

  -- A transition returns True exactly where the row of its job has the worker as owner and its generation, is
  -- not cancelled, and, where that is asked, has a lease that is longer than the margin: then that row is
  -- stored with the new state, and its owner, lease and generation stay. Otherwise it returns False and leaves
  -- the database as it is. It is assumed that no two jobs have one id.
  pub transition_job-outcome :
      (((transition_job t now db).1 ≡ true)
        × (old : AutomationJob) × (get_job t.job_id db ≡ some old)
        × IsMover t now old
        × (new : AutomationJob) × (get_job t.job_id (transition_job t now db).0 ≡ some new)
        × IsMoved t old new)
      ⊎ ((transition_job t now db ≡ (db, false))
          × ((j : AutomationJob) → get_job t.job_id db ≡ some j → ¬ IsMover t now j))
  transition_job-outcome = elim (Bool-cases (passes? (may_move t now) (get_job t.job_id db))) [
    | inl e ↦
        let (old, found, mover, new, stored, moved) = transition_job-IsMoved (answer ∙ e) in
        inl (answer ∙ e, old, found, mover, new, stored, moved)
    | inr e ↦ inr (
      transition_job-false (answer ∙ e),
      λ j found m.
          let id : str_eq j.id t.job_id ≡ true =
            rw (key-find_by job_id_of t.job_id db.jobs found) (eq_refl t.job_id) in
          cc (rw found at e, IsMover-may_move t now j id m),
    )
  ]
