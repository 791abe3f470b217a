-- ===== src/Guard/Outcome/Stored.antt =====
-- What a confirmed submission leaves behind.
use job_applier.Base.{
  ℕ, ◌+◌, ◌<◌, ◌≡◌, refl, sym, ◌∙◌, Bool, true, false, String, none, some, arith, IsKeyed, inl, inr,
}
use job_applier.Queue.State.{applied}
use job_applier.Queue.Db.{
  ApplicationAttempt, AutomationJob, Db, get_attempt, attempt_id_of, get_job, job_id_of,
  set_application,
}
use job_applier.Queue.Events.{event}
use job_applier.Queue.Events.Frame.{record_event-Same}
use job_applier.Queue.Events.Unnamed.{record_event-attempts}
use job_applier.Queue.Transition.{transition_job}
use job_applier.Queue.Transition.Outcome.{IsMoved, transition_job-outcome}
use job_applier.Queue.Transition.Moves.{transition_job-Acts}
use job_applier.Queue.Transition.Unnamed.{transition_job-attempts}
use job_applier.Queue.Complete.{completed}
use job_applier.Queue.Complete.Moves.{complete_attempt-jobs}
use job_applier.Queue.Complete.Stored.{complete_attempt-stores}
use job_applier.Queue.Failure.{went_to}
use job_applier.Guard.Limits.{record_submission_timestamp}
use job_applier.Guard.Outcome.{
  Evidence, Report, expected_of, to_applied, confirm, project_applied, complete_applied,
  reconcile_submission_outcome,
}

-- The worker that reports still owns the job, with a lease that runs, and the attempt is its own.
pub record IsCurrent (r : Report) (id : String) (now : ℕ) (db : Db) : Type 0 where
  pub reported : r.attempt_id ≡ some id
  pub job : AutomationJob
  pub found : get_job r.job_id db ≡ some job
  pub owner : job.lease_owner ≡ some r.worker_id
  pub current : job.fencing_generation ≡ r.generation
  pub alive : job.is_cancelled ≡ false
  pub until : ℕ
  pub leased : job.lease_expires_at ≡ some until
  pub live : now < until
  pub attempt : ApplicationAttempt
  pub tried : get_attempt id db ≡ some attempt
  pub of_job : attempt.job_id ≡ r.job_id
  pub of_worker : attempt.worker_id ≡ some r.worker_id
  pub of_generation : attempt.lease_generation ≡ some r.generation

-- The job and the attempt as they are after it.
pub record IsStored (r : Report) (id : String) (now : ℕ) (db : Db) : Type 0 where
  pub job : AutomationJob
  pub found : get_job r.job_id db ≡ some job
  pub state : job.state ≡ applied
  pub attempt : ApplicationAttempt
  pub tried : get_attempt id db ≡ some attempt
  pub outcome : attempt.outcome ≡ some "applied"
  pub completed_at : attempt.completed_at ≡ some now

module _ (r : Report) (e : Evidence) (id : String) (now utc : ℕ) where
  project_applied-attempts :
      (db : Db) → (project_applied r e now utc db).attempts ≡ (complete_applied r e now db).attempts
  unfolding project_applied
  project_applied-attempts db =
      record_event-attempts
        (event (some r.job_id) (some r.app_id) "application_applied" "SUCCESS" "applied") now refl
        (set_application r.app_id "applied" none utc
          (record_submission_timestamp (r.lower r.adapter_name) now (complete_applied r e now db)))

  project_applied-jobs : (db : Db) → (project_applied r e now utc db).jobs ≡ db.jobs
  unfolding project_applied
  project_applied-jobs db =
      (record_event-Same
        (event (some r.job_id) (some r.app_id) "application_applied" "SUCCESS" "applied") now
        (set_application r.app_id "applied" none utc (
          record_submission_timestamp (r.lower r.adapter_name) now
            (complete_applied r e now db)))).jobs
      ∙ complete_attempt-jobs r.redact _ "applied" e.json "" false (expected_of r) now db

  confirm-stores :
      (db : Db) (x : Db × Bool)
      → IsKeyed job_id_of x.0.jobs
      → IsKeyed attempt_id_of db.attempts
      → x.0.attempts ≡ db.attempts
      → (c : IsCurrent r id now db) → x.1 ≡ true
      → (new : AutomationJob) → get_job r.job_id x.0 ≡ some new
      → IsMoved (to_applied r) c.job new
      → ((confirm r e now utc x).1 ≡ went_to applied) × IsStored r id now (confirm r e now utc x).0
  confirm-stores db (d, false) keyed attempts_keyed same c h new there moved = cc h
  confirm-stores db (d, true) keyed attempts_keyed same c h new there moved = (
    refl,
    record {
      job = new;
      found = rw (project_applied-jobs d) there;
      state = moved.state;
      attempt = completed r.redact "applied" e.json "" false now c.attempt;
      tried =
          rw (project_applied-attempts d, c.reported)
            (complete_attempt-stores r.redact id "applied" e.json "" false r.job_id r.worker_id
              r.generation now d keyed (rw same attempts_keyed) c.attempt new
              (record {
                attempt = rw same c.tried;
                of_job = c.of_job;
                of_worker = c.of_worker;
                of_generation = c.of_generation;
                job = there;
                owner = moved.owner ∙ c.owner;
                current = moved.generation ∙ c.current;
                done = moved.state;
              }));
      outcome = refl;
      completed_at = refl;
    },
  )

-- A confirmed submission is recorded: where the worker that reports it owns the job under its generation, with a
-- lease that runs, and the attempt is its own, the verdict is that the job went to applied, the job is stored in
-- that state, and the attempt with the outcome applied, completed at the time of the report. So the daily limit
-- counts it. It is assumed that the evidence is confirmed and not ambiguous and that ids are unique.
pub reconcile_submission_outcome-stores :
    (r : Report) (e : Evidence) (id : String) (now utc : ℕ) (db : Db)
    → IsKeyed job_id_of db.jobs
    → IsKeyed attempt_id_of db.attempts
    → e.confirmed ≡ true
    → e.is_ambiguous ≡ false
    → IsCurrent r id now db
    → ((reconcile_submission_outcome r e now utc db).1 ≡ went_to applied)
      × IsStored r id now (reconcile_submission_outcome r e now utc db).0
unfolding reconcile_submission_outcome
reconcile_submission_outcome-stores r e id now utc db keyed attempts_keyed sure clear c =
    simp (sure, clear)
      (elim (transition_job-outcome (to_applied r) now db keyed) [
        | inl (done, old, found, mover, new, there, moved) ↦
            confirm-stores r e id now utc db (transition_job (to_applied r) now db)
              ((transition_job-Acts (to_applied r) now db).keyed keyed) attempts_keyed
              (transition_job-attempts (to_applied r) now db) c done new there
              (rw (one_row (sym found ∙ c.found)) at moved)
        | inr (same, refused) ↦ absurd (
            refused c.job c.found (record {
              owner = c.owner;
              generation = c.current;
              alive = c.alive;
              live = λ asked. (c.until, c.leased, margin c.live);
            }))
      ])
  where
    one_row : {a b : AutomationJob} → some a ≡ some b → a ≡ b
    one_row e = cc

    margin : {n u : ℕ} → n < u → n + 0 < u
    margin h = omega arith
