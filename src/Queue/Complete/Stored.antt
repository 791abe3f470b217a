-- ===== src/Queue/Complete/Stored.antt =====
-- What a completion stores, for a worker that still owns the job.
use job_applier.Base.{
  ℕ, ◌≡◌, refl, ◌&&◌, not, true, String, some, arith, Bool, IsKeyed, count_where, count_where-keyed,
  find_by-update_where, find_where-keyed, key-find_by, is_some, is_text, str_eq, eq_refl, ltb, ◌==◌,
  find_where,
}
use job_applier.Queue.State.{applied, ready, state_eq}
use job_applier.Queue.Db.{
  ApplicationAttempt, AutomationJob, Db, get_attempt, attempt_id_of, get_job, job_id_of,
}
use job_applier.Queue.Complete.{Expected, may_complete, completed, complete_attempt}
use job_applier.Queue.Complete.Window.{complete_status-attempts}

-- The attempt and its job, both of the worker under its generation; the job is applied.
pub record IsOwnAttempt (id job_id worker_id : String) (generation : ℕ) (db : Db)
    (a : ApplicationAttempt) (j : AutomationJob) : Type 0 where
  pub attempt : get_attempt id db ≡ some a
  pub of_job : a.job_id ≡ job_id
  pub of_worker : a.worker_id ≡ some worker_id
  pub of_generation : a.lease_generation ≡ some generation
  pub job : get_job job_id db ≡ some j
  pub owner : j.lease_owner ≡ some worker_id
  pub current : j.fencing_generation ≡ generation
  pub done : j.state ≡ applied

module _ (redact : String → String) (id outcome evidence details : String) (vague : Bool)
    (job_id worker_id : String) (generation now : ℕ) (db : Db) (keyed : IsKeyed job_id_of db.jobs)
    (attempts_keyed : IsKeyed attempt_id_of db.attempts) where
  expected : Expected
  expected = record {
    job_id = some job_id;
    worker_id = some worker_id;
    generation = some generation;
  }

  owned_test : AutomationJob → Bool
  owned_test j =
      str_eq j.id job_id
      && (str_eq j.id job_id
          && (j.fencing_generation == generation
              && (is_text j.lease_owner worker_id && not (state_eq j.state ready))))

  own_passes :
      (a : ApplicationAttempt) (j : AutomationJob)
      → IsOwnAttempt id job_id worker_id generation db a j
      → may_complete id expected db a ≡ true
  unfolding expected owned_test
  own_passes a j own =
      let name = key-find_by job_id_of job_id db.jobs own.job in
      let its = key-find_by attempt_id_of id db.attempts own.attempt in
      let passes : owned_test j ≡ true =
        rw (name, own.owner, own.current, own.done, eq_refl job_id, eq_refl worker_id)
          (ground arith) in
      let there : is_some (find_where owned_test db.jobs) ≡ true =
        rw
          (
            find_where-keyed job_id_of job_id owned_test (λ x h. ground arith) db.jobs keyed,
            own.job,
          )
          passes in
      rw
        (
          its,
          own.of_job,
          own.of_worker,
          own.of_generation,
          eq_refl id,
          eq_refl job_id,
          eq_refl worker_id,
        )
        (ground (arith, there))

  pub complete_attempt-stores :
      (a : ApplicationAttempt) (j : AutomationJob)
      → IsOwnAttempt id job_id worker_id generation db a j
      → get_attempt id
          (complete_attempt redact id outcome evidence details vague
            (record {
              job_id = some job_id;
              worker_id = some worker_id;
              generation = some generation;
            })
            now
            db).0
        ≡ some (completed redact outcome evidence details vague now a)
  unfolding complete_attempt expected
  complete_attempt-stores a j own =
      let p = may_complete id expected db in
      let count =
        count_where-keyed attempt_id_of id p (λ x h. ground arith) db.attempts attempts_keyed in
      let found : ltb 0 (count_where p db.attempts) ≡ true =
        rw (count, own.attempt, own_passes a j own) in
      simp found (
        rw (
          complete_status-attempts _ outcome now _,
          find_by-update_where attempt_id_of p (completed redact outcome evidence details vague now)
              (λ x. refl) id db.attempts,
          own.attempt,
          own_passes a j own,
        ))
