-- ===== src/System/Safety.antt =====
-- No submission is repeated by the queue itself: what its operations, of
-- src/job_applier/automation/queue.py, may do to a job that may already have been submitted.
use job_applier.Base.{
  ℕ, ◌≡◌, ◌∙◌, ◌||◌, ◌&&◌, Bool, true, false, String, List, some, arith, IsKeyed, if◌then◌else◌,
  Bool-cases, inl, inr,
}
use job_applier.Queue.State.{
  JobState, state_eq, is_submitting, is_terminal, ambiguous_submission, cancelled,
}
use job_applier.Queue.Db.{AutomationJob, Db, get_job, job_id_of}
use job_applier.Queue.Claim.{is_eligible}
use job_applier.Queue.Claim.Moves.{is_eligible-claimable}
use job_applier.Queue.Lifecycle.{
  Phase, AutoMove, claim, doubt, cancel, skip, reset, reopen, ends_at_once, Moves, here, next,
  is_claimable, is_reset_state,
}
use job_applier.System.{AutoOp, run_auto}
use job_applier.System.Refines.{run_auto-Acts}

-- Submit has been triggered, or may have been, or the job has ended.
abbrev pub is_past_submit : JobState → Bool
is_past_submit s = is_submitting s || (state_eq s ambiguous_submission || is_terminal s)

past_not_claimable : (s : JobState) → (is_past_submit s && is_claimable s) ≡ false
past_not_claimable s = ground arith

past_not_reset : (s : JobState) → (is_past_submit s && is_reset_state s) ≡ false
past_not_reset s = ground arith

past_cancel :
    (s : JobState)
    → is_past_submit s ≡ true
    → is_past_submit (if ends_at_once s then cancelled else s) ≡ true
past_cancel s h = ground arith

AutoMove-past :
    (p q : Phase) → AutoMove p q → is_past_submit p.state ≡ true → is_past_submit q.state ≡ true
AutoMove-past p q (claim _ c s _ _) h = cc (rw (h, c) at (past_not_claimable p.state))
AutoMove-past p q (doubt _ s _ _ _) h = rw s
AutoMove-past p q (cancel s _ _ _) h = rw s (past_cancel p.state h)
AutoMove-past p q (skip c s _ _ _) h = rw s
AutoMove-past p q (reset c s _ _ _) h = cc (rw (h, c) at (past_not_reset p.state))
AutoMove-past p q (reopen c s _ _ _) h = cc (rw c at h)

Moves-past :
    {p q : Phase}
    → Moves AutoMove p q
    → is_past_submit p.state ≡ true
    → is_past_submit q.state ≡ true
Moves-past here h = h
Moves-past (next m s) h = AutoMove-past _ _ s (Moves-past m h)

not_eligible :
    (now : ℕ) (db : Db) (j : AutomationJob)
    → is_past_submit j.state ≡ true
    → is_eligible now db j ≡ false
not_eligible now db j h = elim (Bool-cases (is_eligible now db j)) [
  | inl e ↦ cc (rw (h, (is_eligible-claimable now db j e).1) at (past_not_claimable j.state))
  | inr e ↦ e
]

-- A job past its submission (submitting, ambiguous, or ended) stays so in every run of the queue's own
-- operations (claims, sweeps, repairs, Clear State, skips, cancels, requeues and the rest, with no call
-- by the lease's owner and no resolution), and at no time after the run is it eligible for a claim.
-- It is assumed that no two jobs have one id.
pub run_auto-never_retries :
    (ops : List AutoOp) (db : Db)
    → IsKeyed job_id_of db.jobs
    → (id : String) (j : AutomationJob) → get_job id db ≡ some j
    → is_past_submit j.state ≡ true
    → (j' : AutomationJob) × (get_job id (run_auto ops db) ≡ some j')
      × (is_past_submit j'.state ≡ true)
      × ((now : ℕ) → is_eligible now (run_auto ops db) j' ≡ false)
run_auto-never_retries ops db keyed id j found past =
    let (j', found', moves) = (run_auto-Acts ops db keyed).at id j found in
    let past' = Moves-past moves past in
    (j', found', past', λ now. not_eligible now (run_auto ops db) j' past')

AutoMove-cancelled : (p q : Phase) → AutoMove p q → p.is_cancelled ≡ true → q.is_cancelled ≡ true
AutoMove-cancelled p q (claim c _ _ _ _) h = cc (h, c)
AutoMove-cancelled p q (doubt _ _ _ _ c) h = c ∙ h
AutoMove-cancelled p q (cancel _ _ _ c) h = c
AutoMove-cancelled p q (skip _ _ _ _ c) h = c
AutoMove-cancelled p q (reset _ _ _ _ c) h = c ∙ h
AutoMove-cancelled p q (reopen _ _ _ _ c) h = c ∙ h

Moves-cancelled : {p q : Phase} → Moves AutoMove p q → p.is_cancelled ≡ true → q.is_cancelled ≡ true
Moves-cancelled here h = h
Moves-cancelled (next m s) h = AutoMove-cancelled _ _ s (Moves-cancelled m h)

cancelled_not_eligible :
    (now : ℕ) (db : Db) (j : AutomationJob) → j.is_cancelled ≡ true → is_eligible now db j ≡ false
cancelled_not_eligible now db j h = elim (Bool-cases (is_eligible now db j)) [
  | inl e ↦ cc (h, (is_eligible-claimable now db j e).0)
  | inr e ↦ e
]

-- A cancelled job stays cancelled in every run of the queue's own operations, Clear State and the requeue after
-- a login included, and at no time after the run is it eligible for a claim.
-- It is assumed that no two jobs have one id.
pub run_auto-keeps_cancelled :
    (ops : List AutoOp) (db : Db)
    → IsKeyed job_id_of db.jobs
    → (id : String) (j : AutomationJob) → get_job id db ≡ some j
    → j.is_cancelled ≡ true
    → (j' : AutomationJob) × (get_job id (run_auto ops db) ≡ some j')
      × (j'.is_cancelled ≡ true)
      × ((now : ℕ) → is_eligible now (run_auto ops db) j' ≡ false)
run_auto-keeps_cancelled ops db keyed id j found h =
    let (j', found', moves) = (run_auto-Acts ops db keyed).at id j found in
    let h' = Moves-cancelled moves h in
    (j', found', h', λ now. cancelled_not_eligible now (run_auto ops db) j' h')
