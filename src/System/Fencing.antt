-- ===== src/System/Fencing.antt =====
-- The fencing generation: a worker whose lease was taken from it changes nothing any more, whatever
-- happens in between (src/job_applier/automation/queue.py).
use job_applier.Base.{ℕ, ◌≡◌, ◌≤◌, ◌<◌, sym, ◌∙◌, ap, false, String, List, some, arith, IsKeyed}
use job_applier.Queue.Db.{AutomationJob, Db, get_job, job_id_of, raised, runtime_error}
use job_applier.Queue.Claim.{claim_next_job, renew_lease}
use job_applier.Queue.Transition.{TransitionArgs, transition_job}
use job_applier.Queue.Intent.{record_submit_intent, has_submit_permit}
use job_applier.Queue.Intent.Stale.{record_submit_intent-stale, has_submit_permit-stale}
use job_applier.Queue.Claim.Moves.{claim_next_job-Acts}
use job_applier.Queue.Claim.Selection.{claim_next_job-result}
use job_applier.Queue.Claim.Stale.{renew_lease-stale}
use job_applier.Queue.Transition.Stale.{IsStale, transition_job-stale}
use job_applier.Queue.Fence.Stale.{begin_submit_click_fence-stale}
use job_applier.Queue.Fence.{ClickArgs, begin_submit_click_fence}
use job_applier.Queue.Lifecycle.Laws.{Moves-generation}
use job_applier.System.{Op, run}
use job_applier.System.Refines.{run-Acts}

-- No run, whatever its operations, lowers the fencing generation of a job or removes the job.
-- It is assumed that no two jobs have one id.
pub run-generation :
    (ops : List Op) (db : Db)
    → IsKeyed job_id_of db.jobs
    → (id : String) (j : AutomationJob) → get_job id db ≡ some j
    → (j' : AutomationJob) × (get_job id (run ops db) ≡ some j')
      × (j.fencing_generation ≤ j'.fencing_generation)
run-generation ops db keyed id j found =
    let (j', found', moves) = (run-Acts ops db keyed).at id j found in
    (j', found', Moves-generation moves)

IsStale-run :
    (ops : List Op) (db : Db) (id : String) (g : ℕ)
    → IsKeyed job_id_of db.jobs
    → IsStale db id g
    → IsStale (run ops db) id g
IsStale-run ops db id g keyed stale =
    let (j', found', up) = run-generation ops db keyed id stale.job stale.found in
    let past = stale.past in record { job = j'; found = found'; past = omega arith }

-- Once a job's generation is past a worker's, then after any run, whatever its operations, that worker's
-- transitions, heartbeats and submit intents return False and leave the database as it is, it has no
-- submit permit, and the fence of the submit click refuses it.
-- It is assumed that no two jobs have one id.
pub run-fences_out :
    (ops : List Op) (db : Db)
    → IsKeyed job_id_of db.jobs
    → (c : ClickArgs) → IsStale db c.job_id c.generation
    → (t : TransitionArgs) → t.job_id ≡ c.job_id
    → t.generation ≡ c.generation
    → (lease_seconds margin now utc : ℕ)
    → (transition_job t now (run ops db) ≡ (run ops db, false))
      × (renew_lease c.job_id c.worker_id c.generation lease_seconds now (run ops db)
          ≡ (run ops db, false))
      × (record_submit_intent c.attempt_id c.job_id c.worker_id c.generation now (run ops db)
          ≡ (run ops db, false))
      × (has_submit_permit c.job_id c.worker_id c.generation margin now (run ops db) ≡ false)
      × (begin_submit_click_fence c now utc (run ops db) ≡ raised runtime_error)
run-fences_out ops db keyed c stale t same_job same_generation lease_seconds margin now utc =
    let keyed' = (run-Acts ops db keyed).keyed keyed in
    let stale' = IsStale-run ops db c.job_id c.generation keyed stale in
    (
      transition_job-stale t now (run ops db) keyed' (rw (same_job, same_generation) stale'),
      renew_lease-stale c.job_id c.worker_id c.generation lease_seconds now (run ops db) keyed'
          stale',
      record_submit_intent-stale c.attempt_id c.job_id c.worker_id c.generation now (run ops db)
          keyed' stale',
      has_submit_permit-stale c.job_id c.worker_id c.generation margin now (run ops db) keyed'
          stale',
      begin_submit_click_fence-stale c now utc (run ops db) stale',
    )

same_row :
    (db : Db) (a b : String) {r s : AutomationJob}
    → a ≡ b
    → get_job a db ≡ some r
    → get_job b db ≡ some s
    → r ≡ s
same_row db a b e h k = cc

-- A later claim of the same job, after any run, has a greater generation than an earlier one.
-- It is assumed that no two jobs have one id.
pub claims-grow :
    (db : Db)
    → IsKeyed job_id_of db.jobs
    → (w1 : String) (lease1 now1 : ℕ) (j1 : AutomationJob)
    → (claim_next_job w1 lease1 now1 db).1 ≡ some j1
    → (ops : List Op) → (w2 : String) (lease2 now2 : ℕ) (j2 : AutomationJob)
    → (claim_next_job w2 lease2 now2 (run ops (claim_next_job w1 lease1 now1 db).0)).1 ≡ some j2
    → j2.id ≡ j1.id
    → j1.fencing_generation < j2.fencing_generation
claims-grow db keyed w1 lease1 now1 j1 h1 ops w2 lease2 now2 j2 h2 same =
    let mid = (claim_next_job w1 lease1 now1 db).0 in
    let keyed1 = (claim_next_job-Acts w1 lease1 now1 db keyed).keyed keyed in
    let c1 = claim_next_job-result w1 lease1 now1 db keyed j1 h1 in
    let (k, found, up) = run-generation ops mid keyed1 j1.id j1 c1.stored in
    let keyed2 = (run-Acts ops mid keyed1).keyed keyed1 in
    let c2 = claim_next_job-result w2 lease2 now2 (run ops mid) keyed2 j2 h2 in
    let old_is_k = same_row (run ops mid) c2.old.id j1.id (sym c2.same_id ∙ same) c2.found found in
    let grown = c2.generation in
    let kept = ap (λ (r : AutomationJob). r.fencing_generation) old_is_k in
    omega (arith, grown, kept, up)
