-- ===== src/Queue/Fence.antt =====
-- The fence of the physical submit click (src/job_applier/automation/queue.py):
-- `begin_submit_click_fence` and `finish_submit_click_fence`. The fence holds the takeover lock and a
-- write transaction, so while it is open no other operation of the queue changes the database.
pub mod Stale
pub mod Outcome
use job_applier.Base.{
  ℕ, ◌+◌, String, Bool, not, ◌&&◌, ◌||◌, Option, none, some, ◌==◌, str_eq, is_text, is_number,
  is_some, filled, after, if◌then◌else◌, find_where,
}
use job_applier.Queue.State.{submit_intent, state_eq}
use job_applier.Queue.Db.{
  Db, AutomationJob, ApplicationAttempt, Result, ok, raised, runtime_error, get_job,
}
use job_applier.Queue.Intent.{submit_lease_margin_seconds}

pub record ClickArgs : Type 0 where
  pub job_id : String
  pub attempt_id : String
  pub worker_id : String
  pub generation : ℕ

-- LEFT JOIN application_attempts: this worker's attempt of this generation
abbrev pub is_own_attempt : ClickArgs → ApplicationAttempt → Bool
is_own_attempt c a =
    str_eq a.id c.attempt_id
    && (str_eq a.job_id c.job_id
        && (is_text a.worker_id c.worker_id && is_number a.lease_generation c.generation))

abbrev pub intent_of : Option ApplicationAttempt → Option ℕ
intent_of none = none
intent_of (some a) = a.submit_intent_at

-- `takeover_active`
abbrev pub takeover_active : ℕ → Db → Bool
takeover_active utc db =
    filled db.control.manual_takeover_owner && after db.control.manual_takeover_expires_at utc

-- The refusals, in the order of the code.
pub is_refused : ClickArgs → (now utc : ℕ) → AutomationJob → Db → Bool
is_refused c now utc j db =
    not (state_eq j.state submit_intent)
    || (not (is_text j.lease_owner c.worker_id)
        || (not (j.fencing_generation == c.generation)
            || (j.is_cancelled
                || (not (after j.lease_expires_at (now + submit_lease_margin_seconds))
                    || (db.control.is_paused
                        || (db.control.is_stopped
                            || (takeover_active utc db
                                || not (
                                    is_some (
                                      intent_of (find_where (is_own_attempt c) db.attempts))))))))))

judge : ClickArgs → ℕ → ℕ → Option AutomationJob → Db → Result (Unit {0})
unfolding is_refused
judge c now utc none db = raised runtime_error
judge c now utc (some j) db = if is_refused c now utc j db then raised runtime_error else ok tt

-- The decision: the fence is granted, or the operation raises and holds nothing.
unfoldable pub begin_submit_click_fence : ClickArgs → (now utc : ℕ) → Db → Result (Unit {0})
unfolding judge
begin_submit_click_fence c now utc db = judge c now utc (get_job c.job_id db) db
