-- ===== src/Queue/Fence/Stale.antt =====
-- No click under a generation that is over.
use job_applier.Base.{ℕ, ◌≡◌, ◌<◌, true, arith}
use job_applier.Queue.Db.{AutomationJob, Db, raised, runtime_error}
use job_applier.Queue.Fence.{ClickArgs, is_refused, begin_submit_click_fence}
use job_applier.Queue.Transition.Stale.{IsStale}

old_is_refused :
    (c : ClickArgs) (now utc : ℕ) (j : AutomationJob) (db : Db)
    → c.generation < j.fencing_generation
    → is_refused c now utc j db ≡ true
unfolding is_refused
old_is_refused c now utc j db old = ground arith

pub begin_submit_click_fence-stale :
    (c : ClickArgs) (now utc : ℕ) (db : Db)
    → IsStale db c.job_id c.generation
    → begin_submit_click_fence c now utc db ≡ raised runtime_error
unfolding begin_submit_click_fence
begin_submit_click_fence-stale c now utc db stale =
    rw (stale.found, old_is_refused c now utc stale.job db stale.past)
