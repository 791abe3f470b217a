-- ===== src/Queue/State.antt =====
-- `JobState` and the sets of states that the queue tests (src/job_applier/automation/queue.py).
-- A state column holds the text of a member; the model holds the member, and `value` is its text.
pub mod Laws
use job_applier.Base.{Bool, true, false, String, ℕ, ◌==◌}

pub data JobState : Type 0 where
  ready claimed navigating filling validating submit_intent verifying applied auth_required
        mfa_required captcha_required unknown_question site_changed ambiguous_submission retry_wait
        cancelled failed_permanent skipped :
      JobState

unfoldable pub value : JobState → String
value ready = "ready"
value claimed = "claimed"
value navigating = "navigating"
value filling = "filling"
value validating = "validating"
value submit_intent = "submit_intent"
value verifying = "verifying"
value applied = "applied"
value auth_required = "auth_required"
value mfa_required = "mfa_required"
value captcha_required = "captcha_required"
value unknown_question = "unknown_question"
value site_changed = "site_changed"
value ambiguous_submission = "ambiguous_submission"
value retry_wait = "retry_wait"
value cancelled = "cancelled"
value failed_permanent = "failed_permanent"
value skipped = "skipped"

-- `state == other`, `state = '…'`
abbrev pub index : JobState → ℕ
index ready = 0
index claimed = 1
index navigating = 2
index filling = 3
index validating = 4
index submit_intent = 5
index verifying = 6
index applied = 7
index auth_required = 8
index mfa_required = 9
index captcha_required = 10
index unknown_question = 11
index site_changed = 12
index ambiguous_submission = 13
index retry_wait = 14
index cancelled = 15
index failed_permanent = 16
index skipped = 17

abbrev pub state_eq : JobState → JobState → Bool
state_eq a b = index a == index b

abbrev pub is_terminal : JobState → Bool
is_terminal applied = true
is_terminal cancelled = true
is_terminal failed_permanent = true
is_terminal skipped = true
is_terminal _ = false

abbrev pub is_exception : JobState → Bool
is_exception auth_required = true
is_exception mfa_required = true
is_exception captcha_required = true
is_exception unknown_question = true
is_exception site_changed = true
is_exception ambiguous_submission = true
is_exception _ = false

-- Submit has been triggered, or may have been.
abbrev pub is_submitting : JobState → Bool
is_submitting submit_intent = true
is_submitting verifying = true
is_submitting _ = false

-- A worker is at work before the submission.
abbrev pub is_preparing : JobState → Bool
is_preparing claimed = true
is_preparing navigating = true
is_preparing filling = true
is_preparing validating = true
is_preparing _ = false
