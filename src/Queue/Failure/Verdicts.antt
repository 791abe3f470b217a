-- ===== src/Queue/Failure/Verdicts.antt =====
-- The failure arbiter's verdicts, and what became of the job.
use job_applier.Base.{
  ◌<◌, ◌≢◌, ap, IsKeyed, List, find_by, ℕ, ◌+◌, ◌≡◌, ◌⊎◌, refl, sym, ◌∙◌, Bool, true, false, String,
  Option, some, none, arith, inl, inr, Bool-cases, Option-cases, str_eq, if◌then◌else◌, ltb,
}
use job_applier.Queue.State.{
  JobState, failed_permanent, retry_wait, ambiguous_submission, state_eq, value,
}
use job_applier.Queue.Db.{AutomationJob, Db, get_job, job_id_of}
use job_applier.Queue.Events.Frame.{record_event-Same}
use job_applier.Queue.Outbox.Moves.{enqueue_notification-jobs}
use job_applier.Queue.Ambiguity.{AmbiguityArgs}
use job_applier.Queue.Ambiguity.Outcome.{Doubt, mark_job_ambiguous-outcome}
use job_applier.Queue.Transition.{TransitionArgs, transition_job}
use job_applier.Queue.Transition.Outcome.{transition_job-IsMoved, transition_job-false}
use job_applier.Queue.Failure.Moves.{complete_if-jobs}
use job_applier.Queue.Failure.{
  Failure, Verdict, went_to, lease_lost, guarded, conclude, fail_permanently, verdict_of,
  fail_ambiguously, exception_state?, pause_for_operator, before_submit, backoff, attempts_made,
  retries_allowed, schedule_retry, retry_or_fail, handle_job_failure, alert_operator, log_retry,
  upper_code, alert_text, alert_urgency,
}

-- The job is stored in this state.
abbrev pub IsIn : String → JobState → List AutomationJob → Type 0
IsIn id s jobs = (j : AutomationJob) × (find_by job_id_of id jobs ≡ some j) × (j.state ≡ s)

IsIn-same :
    (id : String) (s : JobState) {a b : List AutomationJob} → b ≡ a → IsIn id s a → IsIn id s b
IsIn-same id s e (j, found, state) = (j, rw e found, state)

-- The verdict is this state, which the job is in now; or it is lost, and no job changed.
abbrev pub IsWent : String → JobState → Db → Db × Verdict → Type 0
IsWent id s db x =
    ((x.1 ≡ went_to s) × IsIn id s x.0.jobs) ⊎ ((x.1 ≡ lease_lost) × (x.0.jobs ≡ db.jobs))

module _ (f : Failure) (now : ℕ) (db : Db) (keyed : IsKeyed job_id_of db.jobs) where
  conclude-IsWent :
      (outcome : String) (s : JobState) (x : Db × Bool)
      → (x.1 ≡ true → IsIn f.job_id s x.0.jobs)
      → (x.1 ≡ false → x.0.jobs ≡ db.jobs)
      → IsWent f.job_id s db (conclude f outcome s now x)
  conclude-IsWent outcome s (d, false) there same = inr (refl, same refl)
  conclude-IsWent outcome s (d, true) there same =
      inl (refl, IsIn-same f.job_id s (complete_if-jobs f outcome f.error now d) (there refl))

  -- A transition of the failed job, and its end.
  move-IsWent :
      (outcome : String) (t : TransitionArgs)
      → t.job_id ≡ f.job_id
      → IsWent f.job_id t.to_state db (conclude f outcome t.to_state now (transition_job t now db))
  move-IsWent outcome t same =
      conclude-IsWent outcome t.to_state (transition_job t now db)
        (λ h.
          let (old, found, mover, new, there, moved) = transition_job-IsMoved t now db keyed h in
          (new, rw (sym same) there, moved.state))
        (λ h. ap (λ (x : Db × Bool). x.0.jobs) (transition_job-false t now db keyed h))

  fail_permanently-IsWent :
      (code : String) → IsWent f.job_id failed_permanent db (fail_permanently f code now db)
  unfolding fail_permanently
  fail_permanently-IsWent code =
      move-IsWent "failed_permanent" (guarded f failed_permanent code) refl

  verdict_of-IsWent :
      (m : AmbiguityArgs) (x : Db × Bool)
      → m.job_id ≡ f.job_id
      → ((x.1 ≡ true) × Doubt m now db x.0) ⊎ (x ≡ (db, false))
      → IsWent f.job_id ambiguous_submission db (verdict_of x)
  verdict_of-IsWent m (d, true) same (inl (e, doubt)) =
      inl (refl, (doubt.job, rw (sym same) doubt.stored, doubt.ambiguous))
  verdict_of-IsWent m (d, true) same (inr e) = cc e
  verdict_of-IsWent m (d, false) same (inl (e, doubt)) = cc e
  verdict_of-IsWent m (d, false) same (inr e) = inr (refl, ap (λ (x : Db × Bool). x.0.jobs) e)

  fail_ambiguously-IsWent : IsWent f.job_id ambiguous_submission db (fail_ambiguously f now db)
  unfolding fail_ambiguously
  fail_ambiguously-IsWent = verdict_of-IsWent _ _ refl (mark_job_ambiguous-outcome _ now db keyed)

  alert_operator-IsWent :
      (s : JobState) (x : Db × Verdict)
      → IsWent f.job_id s db x
      → IsWent f.job_id s db (alert_operator f s now x)
  alert_operator-IsWent s (d, lease_lost) h = h
  alert_operator-IsWent s (d, went_to t) (inr h) = cc (h.0)
  alert_operator-IsWent s (d, went_to t) (inl (e, there)) = inl (
    e,
    IsIn-same f.job_id s
        (enqueue_notification-jobs (value s) (alert_text f.job_id s) (alert_urgency s) none
          (some f.job_id) none none f.fresh f.fresh_item now d)
        there,
  )

  log_retry-IsWent :
      (s : JobState) (x : Db × Verdict)
      → IsWent f.job_id s db x
      → IsWent f.job_id s db (log_retry f now x)
  log_retry-IsWent s (d, lease_lost) h = h
  log_retry-IsWent s (d, went_to t) (inr h) = cc (h.0)
  log_retry-IsWent s (d, went_to t) (inl (e, there)) =
      inl (e, IsIn-same f.job_id s (record_event-Same _ now d).jobs there)

  pause_for_operator-IsWent : (s : JobState) → IsWent f.job_id s db (pause_for_operator f s now db)
  unfolding pause_for_operator
  pause_for_operator-IsWent s =
      alert_operator-IsWent s _ (move-IsWent (value s) (guarded f s (upper_code s)) refl)

  schedule_retry-IsWent :
      (delay : ℕ) → IsWent f.job_id retry_wait db (schedule_retry f delay now db)
  unfolding schedule_retry
  schedule_retry-IsWent delay = log_retry-IsWent retry_wait _ (
      move-IsWent "retry_wait"
        (record (guarded f retry_wait "PRE_SUBMIT_TRANSIENT") {
          checkpoint = "retry_wait";
          next_retry_at = some (now + delay);
        })
        refl)

abbrev destination_before : Option JobState → (is_permanent has_retries : Bool) → JobState
destination_before (some s) is_permanent has_retries = s
destination_before none true has_retries = failed_permanent
destination_before none false true = retry_wait
destination_before none false false = failed_permanent

-- The state that a failure sends its job to, by the report and the attempts made.
abbrev pub destination :
    (is_pre_submit : Bool) (category : String) → Option AutomationJob → JobState
destination false category job =
    if str_eq category "ambiguous_submission" then ambiguous_submission else failed_permanent
destination true category job =
    destination_before (exception_state? category) (str_eq category "failed_permanent")
      (ltb (attempts_made job) (retries_allowed job))

module _ (f : Failure) (now : ℕ) (db : Db) (keyed : IsKeyed job_id_of db.jobs) where
  retry_or_fail-IsWent :
      IsWent f.job_id
        (destination_before none false
          (ltb (attempts_made (get_job f.job_id db)) (retries_allowed (get_job f.job_id db))))
        db
        (retry_or_fail f now db)
  unfolding retry_or_fail
  retry_or_fail-IsWent =
      elim (Bool-cases
        (ltb (attempts_made (get_job f.job_id db)) (retries_allowed (get_job f.job_id db)))) [
          | inl e ↦
              rw e (
                schedule_retry-IsWent f now db keyed
                  (backoff (attempts_made (get_job f.job_id db))))
          | inr e ↦ rw e (fail_permanently-IsWent f now db keyed "MAX_RETRIES_EXCEEDED")
        ]

  before_submit-IsWent :
      (category : String) (o : Option JobState)
      → IsWent f.job_id
          (destination_before o
            (str_eq category "failed_permanent")
            (ltb (attempts_made (get_job f.job_id db)) (retries_allowed (get_job f.job_id db))))
          db
          (before_submit f category o now db)
  unfolding before_submit
  before_submit-IsWent category (some s) = pause_for_operator-IsWent f now db keyed s
  before_submit-IsWent category none = elim (Bool-cases (str_eq category "failed_permanent")) [
    | inl e ↦ rw e (fail_permanently-IsWent f now db keyed "FAILED_PERMANENT")
    | inr e ↦ rw e retry_or_fail-IsWent
  ]

  destination-IsWent :
      (is_pre_submit : Bool) (category : String)
      → IsWent f.job_id
          (destination is_pre_submit category (get_job f.job_id db))
          db
          (handle_job_failure f is_pre_submit category now db)
  unfolding handle_job_failure
  destination-IsWent true category = before_submit-IsWent category (exception_state? category)
  destination-IsWent false category = elim (Bool-cases (str_eq category "ambiguous_submission")) [
    | inl e ↦ rw e (fail_ambiguously-IsWent f now db keyed)
    | inr e ↦ rw e (fail_permanently-IsWent f now db keyed "SUBMISSION_REJECTED")
  ]

after_submit :
    (is_pre_submit : Bool) (category : String) (job : Option AutomationJob)
    → is_pre_submit ≡ false
    → (destination is_pre_submit category job ≡ ambiguous_submission)
      ⊎ (destination is_pre_submit category job ≡ failed_permanent)
after_submit true category job h = cc h
after_submit false category job h = elim (Bool-cases (str_eq category "ambiguous_submission")) [
  | inl e ↦ inl (rw e)
  | inr e ↦ inr (rw e)
]

-- The arbiter's verdict tells what became of the job. Where it names a state, the job is stored in that state,
-- which after the submission is ambiguous_submission or failed_permanent; where it says that the lease was
-- lost, no job changed. It is assumed that no two jobs have one id.
pub handle_job_failure-verdict :
    (f : Failure) (is_pre_submit : Bool) (category : String) (now : ℕ) (db : Db)
    → IsKeyed job_id_of db.jobs
    → ((s : JobState) × ((handle_job_failure f is_pre_submit category now db).1 ≡ went_to s)
        × (j : AutomationJob) × (get_job f.job_id
              (handle_job_failure f is_pre_submit category now db).0
            ≡ some j)
        × (j.state ≡ s)
        × (is_pre_submit ≡ false → (s ≡ ambiguous_submission) ⊎ (s ≡ failed_permanent)))
      ⊎ (((handle_job_failure f is_pre_submit category now db).1 ≡ lease_lost)
          × ((handle_job_failure f is_pre_submit category now db).0.jobs ≡ db.jobs))
handle_job_failure-verdict f is_pre_submit category now db keyed =
    elim (destination-IsWent f now db keyed is_pre_submit category) [
      | inl (e, there) ↦
          let (j, found, state) = there in
          inl (
            destination is_pre_submit category (get_job f.job_id db),
            e,
            j,
            found,
            state,
            after_submit is_pre_submit category (get_job f.job_id db),
          )
      | inr (e, same) ↦ inr (e, same)
    ]

exception_is_no_retry :
    (c : String) (s : JobState) → exception_state? c ≡ some s → state_eq s retry_wait ≡ false
unfolding exception_state?
exception_is_no_retry c s h = ground arith

retry_destination :
    (is_pre_submit : Bool) (category : String) (job : Option AutomationJob)
    → destination is_pre_submit category job ≡ retry_wait
    → (is_pre_submit ≡ true) × (ltb (attempts_made job) (retries_allowed job) ≡ true)
retry_destination false category job h = ground arith
retry_destination true category job h = elim (Option-cases (exception_state? category)) [
  | inl e ↦ (refl, ground (arith, rw e at h))
  | inr (s, e) ↦ ground (arith, rw e at h, exception_is_no_retry category s e)
]

-- A failure puts its job into retry_wait only before the submission, and only while fewer attempts were made than
-- the job may have: where the job was not in retry_wait before and is there now, both hold.
-- It is assumed that no two jobs have one id.
pub handle_job_failure-retries :
    (f : Failure) (is_pre_submit : Bool) (category : String) (now : ℕ) (db : Db)
    → IsKeyed job_id_of db.jobs
    → (old new : AutomationJob) → get_job f.job_id db ≡ some old
    → get_job f.job_id (handle_job_failure f is_pre_submit category now db).0 ≡ some new
    → old.state ≢ retry_wait
    → new.state ≡ retry_wait
    → (is_pre_submit ≡ true) × (old.attempt_count < old.max_retries)
handle_job_failure-retries f is_pre_submit category now db keyed old new found there fresh waits =
    elim (destination-IsWent f now db keyed is_pre_submit category) [
      | inl (e, kept) ↦
          let (j, stored, state) = kept in
          let same : j ≡ new = one_row (sym stored ∙ there) in
          let (before, left) =
            retry_destination is_pre_submit category (get_job f.job_id db)
              (sym state ∙ ap (λ (x : AutomationJob). x.state) same ∙ waits) in
          (before, ground (arith, rw found at left))
      | inr (e, same) ↦
          let row : old ≡ new = one_row (sym found ∙ rw same at there) in
          absurd (fresh (ap (λ (x : AutomationJob). x.state) row ∙ waits))
    ]
  where
    one_row : {a b : AutomationJob} → some a ≡ some b → a ≡ b
    one_row e = cc
