-- ===== src/Queue/Fence/Outcome.antt =====
-- What a granted fence of the submit click means.
use job_applier.Base.{
  ℕ, ◌+◌, ◌≡◌, refl, ◌∙◌, true, false, Option, some, none, arith, IsKeyed, ◌||◌, is_some,
  find_where, Bool-cases, inl, inr, str_eq, key-find_by, eq_iff,
}
use job_applier.Queue.Db.{AutomationJob, Db, ok, raised, runtime_error, get_job, job_id_of}
use job_applier.Queue.Intent.{has_submit_permit, submit_lease_margin_seconds}
use job_applier.Queue.Intent.Stale.{has_submit_permit-row, is_permitted}
use job_applier.Queue.Takeover.{is_takeover_active}
use job_applier.Queue.Takeover.Exclusion.{is_takeover_active-flag}
use job_applier.Queue.Fence.{
  ClickArgs, is_own_attempt, intent_of, takeover_active, is_refused, judge,
  begin_submit_click_fence,
}

granted_row :
    (c : ClickArgs) (now utc : ℕ) (o : Option AutomationJob) (db : Db)
    → judge c now utc o db ≡ ok tt
    → (j : AutomationJob) × (o ≡ some j) × (is_refused c now utc j db ≡ false)
unfolding judge
granted_row c now utc none db h = cc h
granted_row c now utc (some j) db h = elim (Bool-cases (is_refused c now utc j db)) [
  | inl e ↦ cc (rw e at h)
  | inr e ↦ (j, refl, e)
]

-- The runtime lets the click through, and this worker's attempt bears its intent.
pub record IsClear (c : ClickArgs) (utc : ℕ) (db : Db) : Type 0 where
  pub running : (db.control.is_paused || db.control.is_stopped) ≡ false
  pub free : takeover_active utc db ≡ false
  pub intended : is_some (intent_of (find_where (is_own_attempt c) db.attempts)) ≡ true

is_refused-IsClear :
    (c : ClickArgs) (now utc : ℕ) (j : AutomationJob) (db : Db)
    → is_refused c now utc j db ≡ false
    → IsClear c utc db
unfolding is_refused
is_refused-IsClear c now utc j db h = record {
  running = ground arith;
  free = ground arith;
  intended = ground arith;
}

permitted_row :
    (c : ClickArgs) (now utc : ℕ) (j : AutomationJob) (db : Db)
    → str_eq j.id c.job_id ≡ true
    → is_refused c now utc j db ≡ false
    → is_permitted c.job_id c.worker_id c.generation (now + submit_lease_margin_seconds) j ≡ true
unfolding is_refused
permitted_row c now utc j db own h = ground arith

-- The fence of the submit click is granted only where the worker has the submit permit with the margin of
-- 20 seconds, automation is neither paused nor stopped, no takeover lease is running, and this worker's attempt of
-- this generation bears its durable intent.
-- It is assumed that no two jobs have one id.
pub begin_submit_click_fence-granted :
    (c : ClickArgs) (now utc : ℕ) (db : Db)
    → IsKeyed job_id_of db.jobs
    → begin_submit_click_fence c now utc db ≡ ok tt
    → (has_submit_permit c.job_id c.worker_id c.generation submit_lease_margin_seconds now db
        ≡ true)
      × ((db.control.is_paused || db.control.is_stopped) ≡ false)
      × ((is_takeover_active utc db).0 ≡ false)
      × (is_some (intent_of (find_where (is_own_attempt c) db.attempts)) ≡ true)
unfolding begin_submit_click_fence
begin_submit_click_fence-granted c now utc db keyed h =
    let (j, found, fits) = granted_row c now utc (get_job c.job_id db) db h in
    let own : str_eq j.id c.job_id ≡ true =
      (eq_iff j.id c.job_id).1 (key-find_by job_id_of c.job_id db.jobs found) in
    let clear = is_refused-IsClear c now utc j db fits in
    (
      has_submit_permit-row c.job_id c.worker_id c.generation submit_lease_margin_seconds now db
            keyed
          ∙ rw found (permitted_row c now utc j db own fits),
      clear.running,
      is_takeover_active-flag utc db ∙ clear.free,
      clear.intended,
    )

paused_is_refused :
    (c : ClickArgs) (now utc : ℕ) (j : AutomationJob) (db : Db)
    → db.control.is_paused ≡ true
    → is_refused c now utc j db ≡ true
unfolding is_refused
paused_is_refused c now utc j db h = ground arith

judge-paused :
    (c : ClickArgs) (now utc : ℕ) (o : Option AutomationJob) (db : Db)
    → db.control.is_paused ≡ true
    → judge c now utc o db ≡ raised runtime_error
unfolding judge
judge-paused c now utc none db h = refl
judge-paused c now utc (some j) db h =
    let e = paused_is_refused c now utc j db h in ground (arith, e)

pub begin_submit_click_fence-paused :
    (c : ClickArgs) (now utc : ℕ) (db : Db)
    → db.control.is_paused ≡ true
    → begin_submit_click_fence c now utc db ≡ raised runtime_error
unfolding begin_submit_click_fence
begin_submit_click_fence-paused c now utc db h = judge-paused c now utc (get_job c.job_id db) db h
