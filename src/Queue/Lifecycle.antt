-- ===== src/Queue/Lifecycle.antt =====
-- The life of one job, as the queue promises it: the moves that its operations may make on a row
-- (src/job_applier/automation/queue.py). The modules named Moves relate the operations to it.
pub mod Laws
use job_applier.Base.{
  ℕ, ◌+◌, ◌≡◌, ◌||◌, Bool, true, false, String, Option, none, some, if◌then◌else◌, IsKeyed,
}
use job_applier.Queue.State.{
  JobState, ready, claimed, retry_wait, cancelled, skipped, auth_required, mfa_required,
  captcha_required, unknown_question, site_changed, ambiguous_submission, is_preparing,
  is_submitting, state_eq,
}
use job_applier.Queue.Db.{AutomationJob, Db, get_job, job_id_of}

-- The part of a row that the lease protocol is about.
pub record Phase : Type 0 where
  pub state : JobState
  pub owner : Option String
  pub generation : ℕ
  pub is_cancelled : Bool

abbrev pub phase : AutomationJob → Phase
phase j = record {
  state = j.state;
  owner = j.lease_owner;
  generation = j.fencing_generation;
  is_cancelled = j.is_cancelled;
}

abbrev pub is_claimable : JobState → Bool
is_claimable s = state_eq s ready || (state_eq s retry_wait || is_preparing s)

abbrev pub is_reset_state : JobState → Bool
is_reset_state s =
    is_preparing s
    || (state_eq s auth_required || (state_eq s mfa_required || state_eq s captcha_required))

-- Nobody is at work on the job, and it was not submitted: a cancellation ends it at once.
abbrev pub ends_at_once : JobState → Bool
ends_at_once s =
    state_eq s ready
    || (state_eq s retry_wait
        || (state_eq s unknown_question
            || (state_eq s auth_required
                || (state_eq s mfa_required || state_eq s captcha_required))))

-- The job was not submitted, and is at no end.
abbrev pub is_skippable : JobState → Bool
is_skippable s = is_preparing s || (ends_at_once s || state_eq s site_changed)

-- The job waits for the operator, or was skipped.
abbrev pub is_stopped_short : JobState → Bool
is_stopped_short s =
    state_eq s skipped
    || (state_eq s ambiguous_submission
        || (state_eq s unknown_question
            || (state_eq s site_changed
                || (state_eq s auth_required
                    || (state_eq s mfa_required || state_eq s captcha_required)))))

-- The moves that need neither the worker that owns the lease nor a resolution by the operator.
pub data AutoMove (p q : Phase) : Type 0 where
  -- a worker takes the job, under a new generation
  claim :
      p.is_cancelled ≡ false
      → is_claimable p.state ≡ true
      → q.state ≡ claimed
      → q.generation ≡ p.generation + 1
      → q.is_cancelled ≡ false
      → AutoMove p q
  -- the outcome is unknown: the lease is given up
  doubt :
      (is_preparing p.state || is_submitting p.state) ≡ true
      → q.state ≡ ambiguous_submission
      → q.owner ≡ none
      → q.generation ≡ p.generation + 1
      → q.is_cancelled ≡ p.is_cancelled
      → AutoMove p q
  -- the job is cancelled, at once where it waits
  cancel :
      q.state ≡ (if ends_at_once p.state then cancelled else p.state)
      → q.owner ≡ p.owner
      → q.generation ≡ p.generation
      → q.is_cancelled ≡ true
      → AutoMove p q
  skip :
      is_skippable p.state ≡ true
      → q.state ≡ skipped
      → q.owner ≡ none
      → q.generation ≡ p.generation + 1
      → q.is_cancelled ≡ true
      → AutoMove p q
  -- an interrupted or paused job goes back to the queue
  reset :
      is_reset_state p.state ≡ true
      → q.state ≡ ready
      → q.owner ≡ none
      → q.generation ≡ p.generation + 1
      → q.is_cancelled ≡ p.is_cancelled
      → AutoMove p q
  -- the same for one job that waits for a login: the generation stays until the next claim
  reopen :
      p.state ≡ auth_required
      → q.state ≡ ready
      → q.owner ≡ none
      → q.generation ≡ p.generation
      → q.is_cancelled ≡ p.is_cancelled
      → AutoMove p q

pub data Move (p q : Phase) : Type 0 where
  auto : AutoMove p q → Move p q
  -- the owner of the lease moves the job to any state, under its generation
  work :
      (worker : String)
      → p.owner ≡ some worker
      → p.is_cancelled ≡ false
      → q.owner ≡ p.owner
      → q.generation ≡ p.generation
      → q.is_cancelled ≡ false
      → Move p q
  -- the operator puts a stopped job back
  resolve :
      is_stopped_short p.state ≡ true
      → q.state ≡ ready
      → q.owner ≡ none
      → q.generation ≡ p.generation + 1
      → q.is_cancelled ≡ false
      → Move p q

-- Any number of moves, each of a kind `R`.
pub data Moves (R : Phase → Phase → Type 0) (p : Phase) : Phase → Type 0 where
  here : Moves R p p
  next : {q r : Phase} → Moves R p q → R q r → Moves R p r

-- From one database to another every job stays and makes moves of the kind `R` or none, and no id comes
-- to be used twice.
pub record Acts (R : Phase → Phase → Type 0) (a b : Db) : Type 0 where
  pub at :
      (id : String) (j : AutomationJob)
      → get_job id a ≡ some j
      → (j' : AutomationJob) × (get_job id b ≡ some j') × Moves R (phase j) (phase j')
  pub keyed : IsKeyed job_id_of a.jobs → IsKeyed job_id_of b.jobs
