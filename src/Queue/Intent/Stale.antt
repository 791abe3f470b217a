-- ===== src/Queue/Intent/Stale.antt =====
-- No intent and no permit under a generation that is over.
use job_applier.Base.{
  ℕ, ◌≡◌, ◌&&◌, Bool, false, String, arith, IsKeyed, ◌+◌, not, after, passes?, find_where-keyed,
}
use job_applier.Queue.Db.{AutomationJob, Db, get_job, job_id_of}
use job_applier.Queue.State.{submit_intent, state_eq}
use job_applier.Queue.Transition.{is_owned}
use job_applier.Queue.Intent.{record_submit_intent, has_submit_permit, intent_transition}
use job_applier.Queue.Transition.Stale.{IsStale, transition_job-stale, find_where-stale}

pub record_submit_intent-stale :
    (attempt_id job_id worker_id : String) (generation now : ℕ) (db : Db)
    → IsKeyed job_id_of db.jobs
    → IsStale db job_id generation
    → record_submit_intent attempt_id job_id worker_id generation now db ≡ (db, false)
unfolding record_submit_intent
record_submit_intent-stale attempt_id job_id worker_id generation now db keyed stale =
    rw (transition_job-stale (intent_transition job_id worker_id generation) now db keyed stale)

pub has_submit_permit-stale :
    (job_id worker_id : String) (generation margin now : ℕ) (db : Db)
    → IsKeyed job_id_of db.jobs
    → IsStale db job_id generation
    → has_submit_permit job_id worker_id generation margin now db ≡ false
unfolding has_submit_permit
has_submit_permit-stale job_id worker_id generation margin now db keyed stale =
    find_where-stale db job_id generation keyed stale _ (λ x h. ground arith)

-- The permit is a test of the row of the job.
abbrev pub is_permitted : String → String → ℕ → ℕ → AutomationJob → Bool
is_permitted job_id worker_id generation until j =
    is_owned job_id worker_id generation j
    && (state_eq j.state submit_intent && (not j.is_cancelled && after j.lease_expires_at until))

pub has_submit_permit-row :
    (job_id worker_id : String) (generation margin now : ℕ) (db : Db)
    → IsKeyed job_id_of db.jobs
    → has_submit_permit job_id worker_id generation margin now db
      ≡ passes? (is_permitted job_id worker_id generation (now + margin)) (get_job job_id db)
unfolding has_submit_permit
has_submit_permit-row job_id worker_id generation margin now db keyed =
    find_where-keyed job_id_of job_id (is_permitted job_id worker_id generation (now + margin))
      (λ x h. ground arith) db.jobs keyed
