-- ===== src/Queue/Claim/Stale.antt =====
-- A heartbeat under a generation that is over renews nothing.
use job_applier.Base.{
  ℕ, ◌+◌, ◌≡◌, false, String, some, arith, IsKeyed, update_where_none, Bool-cases, inl, inr,
}
use job_applier.Queue.Db.{Db, job_id_of}
use job_applier.Queue.Claim.{holds_lease, renew_lease}
use job_applier.Queue.Transition.Stale.{IsStale, count_where-stale}

pub renew_lease-stale :
    (job_id worker_id : String) (generation lease_seconds now : ℕ) (db : Db)
    → IsKeyed job_id_of db.jobs
    → IsStale db job_id generation
    → renew_lease job_id worker_id generation lease_seconds now db ≡ (db, false)
unfolding renew_lease
renew_lease-stale job_id worker_id generation lease_seconds now db keyed stale =
    let none_held =
      count_where-stale db job_id generation keyed stale
        (holds_lease job_id worker_id generation now) (λ x h. ground arith) in
    let same_rows =
      update_where_none (holds_lease job_id worker_id generation now)
        (λ r. record r { lease_expires_at = some (now + lease_seconds); updated_at = now }) db.jobs
        none_held in
    elim (Bool-cases db.control.is_stopped) [ inl e ↦ rw e | inr e ↦ rw (e, none_held, same_rows) ]
