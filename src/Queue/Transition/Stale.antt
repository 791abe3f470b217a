-- ===== src/Queue/Transition/Stale.antt =====
-- A worker whose generation is over moves nothing.
use job_applier.Base.{
  ℕ, ◌≡◌, ◌<◌, ◌∙◌, ◌&&◌, Bool, true, false, String, some, arith, IsKeyed, str_eq, count_where,
  find_where, count_where-keyed, find_where-keyed, ◌==◌, is_some,
}
use job_applier.Queue.Db.{AutomationJob, Db, get_job, job_id_of}
use job_applier.Queue.Transition.{TransitionArgs, may_move, transition_job}

-- The job has gone past this generation.
pub record IsStale (db : Db) (id : String) (generation : ℕ) : Type 0 where
  pub job : AutomationJob
  pub found : get_job id db ≡ some job
  pub past : generation < job.fencing_generation

-- A WHERE that asks for the job and the generation finds nothing.
module _ (db : Db) (id : String) (g : ℕ) (keyed : IsKeyed job_id_of db.jobs)
    (stale : IsStale db id g) (p : AutomationJob → Bool)
    (asks : (x : AutomationJob)
      → p x ≡ true
      → (str_eq x.id id && (x.fencing_generation == g)) ≡ true) where
  stale_fails : p stale.job ≡ false
  stale_fails = let past = stale.past in ground (arith, asks stale.job)

  pub count_where-stale : count_where p db.jobs ≡ 0
  count_where-stale =
      count_where-keyed job_id_of id p (λ x h. ground (arith, asks x h)) db.jobs keyed
      ∙ rw (stale.found, stale_fails)

  pub find_where-stale : is_some (find_where p db.jobs) ≡ false
  find_where-stale =
      find_where-keyed job_id_of id p (λ x h. ground (arith, asks x h)) db.jobs keyed
      ∙ rw (stale.found, stale_fails)

pub transition_job-stale :
    (t : TransitionArgs) (now : ℕ) (db : Db)
    → IsKeyed job_id_of db.jobs
    → IsStale db t.job_id t.generation
    → transition_job t now db ≡ (db, false)
unfolding transition_job
transition_job-stale t now db keyed stale =
    rw (
      count_where-stale db t.job_id t.generation keyed stale (may_move t now) (λ x h. ground arith))
