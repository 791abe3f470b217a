-- ===== src/Queue/Claim/Moves.antt =====
-- A claim is a move of the chosen job, and a heartbeat moves nothing.
use job_applier.Base.{
  ℕ, ◌+◌, ◌≡◌, refl, sym, ap, subst, ◌∙◌, ◌||◌, true, false, String, Option, none, some, arith,
  update_where, str_eq, IsKeyed, best_where, best_where-find_by, best_where_passes, eq_iff,
}
use job_applier.Queue.Db.{AutomationJob, Db, get_job, job_id_of}
use job_applier.Queue.Events.Frame.{record_event-Same}
use job_applier.Queue.Claim.{
  is_eligible, comes_first, as_claimed, claim_chosen, claim_next_job, holds_lease, renew_lease,
}
use job_applier.Queue.Lifecycle.{Phase, phase, AutoMove, claim, Moves, here, Acts, is_claimable}
use job_applier.Queue.Lifecycle.Laws.{Acts-refl, Acts-update, Acts-if, one}

pub is_eligible-claimable :
    (now : ℕ) (db : Db) (j : AutomationJob)
    → is_eligible now db j ≡ true
    → (j.is_cancelled ≡ false) × (is_claimable j.state ≡ true)
unfolding is_eligible
is_eligible-claimable now db j h = ground arith

pub claim_chosen-jobs :
    (worker_id : String) (lease_seconds now : ℕ) (j : AutomationJob) (db : Db)
    → (claim_chosen worker_id lease_seconds now (some j) db).0.jobs
      ≡ update_where
          (λ (r : AutomationJob). str_eq r.id j.id)
          (as_claimed worker_id lease_seconds now j)
          db.jobs
unfolding claim_chosen
claim_chosen-jobs worker_id lease_seconds now j db = (record_event-Same _ now _).jobs

some_injective : {a b : AutomationJob} → some a ≡ some b → a ≡ b
some_injective e = cc

-- Rows are told apart by their ids.
pub row_is_chosen :
    (db : Db) (r j : AutomationJob)
    → get_job r.id db ≡ some r
    → str_eq r.id j.id ≡ true
    → get_job j.id db ≡ some j
    → j ≡ r
row_is_chosen db r j found same chosen =
    some_injective (sym chosen ∙ ap (λ k. get_job k db) (sym ((eq_iff r.id j.id).0 same)) ∙ found)

claim_chosen-Acts :
    (worker_id : String) (lease_seconds now : ℕ) (db : Db)
    → IsKeyed job_id_of db.jobs
    → (o : Option AutomationJob) → best_where comes_first (is_eligible now db) db.jobs ≡ o
    → Acts AutoMove db (claim_chosen worker_id lease_seconds now o db).0
claim_chosen-Acts worker_id lease_seconds now db keyed none e = unfold claim_chosen in Acts-refl db
claim_chosen-Acts worker_id lease_seconds now db keyed (some j) e =
    let c =
      is_eligible-claimable now db j
        (best_where_passes comes_first (is_eligible now db) db.jobs e) in
    Acts-update (λ (r : AutomationJob). str_eq r.id j.id) (as_claimed worker_id lease_seconds now j)
      (claim_chosen-jobs worker_id lease_seconds now j db) (λ r. refl)
      (λ r found same.
        subst
          (λ (x : AutomationJob).
            Moves AutoMove (phase x) (phase (as_claimed worker_id lease_seconds now j x)))
          (row_is_chosen db r j found same
            (best_where-find_by job_id_of comes_first (is_eligible now db) db.jobs j keyed e))
          (one (claim c.0 c.1 refl refl c.0)))

-- A claim makes at most the move `claim`, on one job.
pub claim_next_job-Acts :
    (worker_id : String) (lease_seconds now : ℕ) (db : Db)
    → IsKeyed job_id_of db.jobs
    → Acts AutoMove db (claim_next_job worker_id lease_seconds now db).0
unfolding claim_next_job
claim_next_job-Acts worker_id lease_seconds now db keyed =
    Acts-if (db.control.is_paused || db.control.is_stopped) _ _ (Acts-refl db) (
      claim_chosen-Acts worker_id lease_seconds now db keyed
        (best_where comes_first (is_eligible now db) db.jobs) refl)

-- A heartbeat moves no job.
pub renew_lease-Acts :
    (R : Phase → Phase → Type 0) (job_id worker_id : String) (generation lease_seconds now : ℕ)
    (db : Db)
    → Acts R db (renew_lease job_id worker_id generation lease_seconds now db).0
unfolding renew_lease
renew_lease-Acts R job_id worker_id generation lease_seconds now db =
    Acts-if db.control.is_stopped _ _ (Acts-refl db) (
      Acts-update (holds_lease job_id worker_id generation now)
        (λ r. record r { lease_expires_at = some (now + lease_seconds); updated_at = now }) refl
        (λ r. refl) (λ r found held. here))
