-- ===== src/Guard/Safety/Cleared.antt =====
-- What it means that the guard lets a submission through.
use job_applier.Base.{
  ◌-◌, ◌*◌, ◌⊎◌, inl, inr, ap, ◌∙◌, eq_iff, str_eq, is_text→eq, Bool-cases, List, [], ◌∷◌, max,
  find_by, ℕ, ◌+◌, ◌≡◌, ◌≤◌, ◌<◌, refl, String, Bool, true, false, ◌||◌, Option, none, some,
  is_text, filled, coalesce, after, arith,
}
use job_applier.Adapters.{AdapterControl}
use job_applier.Queue.Db.{Db, AutomationJob, RuntimeControl, get_job}
use job_applier.Queue.Intent.{submit_lease_margin_seconds}
use job_applier.Guard.Limits.{
  adapter_of, latest, latest_of, get_adapter_control, get_latest_submission_timestamp,
  get_submissions_in_window,
}
use job_applier.Guard.Limits.Window.{sent_since, window-sent}
use job_applier.Queue.Transition.Outcome.{after-until}
use job_applier.Guard.Safety.{
  GuardError, SafetyArgs, Surroundings, raise_if, unless_mock, check_runtime, check_ownership,
  check_adapter, check_control, is_supported, is_too_soon, min_canary_count,
  validate_pre_submit_safety,
}

coalesce-none : {E : Type 0} (a b : Option E) → coalesce a b ≡ none → (a ≡ none) × (b ≡ none)
coalesce-none none b h = (refl, h)
coalesce-none (some e) b h = cc h

-- The state of things at a submission that the guard let through.
pub record IsCleared (a : SafetyArgs) (s : Surroundings) (db : Db) : Type 0 where
  pub unpaused : db.control.is_paused ≡ false
  pub unstopped : db.control.is_stopped ≡ false
  pub free :
      (db.control.manual_takeover_owner ≡ none) ⊎ (db.control.manual_takeover_owner ≡ some "")
  pub roomy : s.is_under_pressure ≡ false
  pub job : AutomationJob
  pub found : get_job a.job_id db ≡ some job
  pub alive : job.is_cancelled ≡ false
  pub owned : job.lease_owner ≡ some a.worker_id
  pub current : job.fencing_generation ≡ a.generation
  pub until : ℕ
  pub leased : job.lease_expires_at ≡ some until
  pub lasting : s.now + 20 < until
  pub supported :
      (s.lower a.adapter_name ≡ "greenhouse")
      ⊎ ((s.lower a.adapter_name ≡ "lever") ⊎ (s.lower a.adapter_name ≡ "ashby"))
  pub adapter : AdapterControl
  pub controlled : get_adapter_control (s.lower a.adapter_name) db ≡ some adapter
  pub proven : 3 ≤ adapter.confirmed_canary_count
  pub enabled : adapter.is_enabled ≡ true
  -- of this adapter and of every other one
  pub paced :
      (name : String) (c : AdapterControl) (last : ℕ)
      → get_adapter_control name db ≡ some c
      → c.last_submission_at ≡ some last
      → last + adapter.min_interval_seconds ≤ s.now
  pub below_cap : sent_since (s.now - 24 * 3600) db.attempts < adapter.max_daily_submissions

unfilled : (o : Option String) → filled o ≡ false → (o ≡ none) ⊎ (o ≡ some "")
unfilled none h = inl refl
unfilled (some t) h = elim (Bool-cases (str_eq t "")) [
  | inl e ↦ inr (ap some ((eq_iff t "").0 e))
  | inr e ↦ cc (rw e at h)
]

supported-cases :
    (name : String)
    → is_supported name ≡ true
    → (name ≡ "greenhouse") ⊎ ((name ≡ "lever") ⊎ (name ≡ "ashby"))
supported-cases name h = elim (Bool-cases (str_eq name "greenhouse")) [
  | inl e ↦ inl ((eq_iff name "greenhouse").0 e)
  | inr e ↦ elim (Bool-cases (str_eq name "lever")) [
    | inl f ↦ inr (inl ((eq_iff name "lever").0 f))
    | inr f ↦ inr (inr ((eq_iff name "ashby").0 (rw (e, f) at h)))
  ]
]

latest-right : (a b : Option ℕ) (m : ℕ) → b ≡ some m → (n : ℕ) × (latest a b ≡ some n) × (m ≤ n)
latest-right none (some k) m h = (k, refl, ground arith)
latest-right (some x) (some k) m h = (max x k, refl, ground arith)
latest-right none none m h = cc h
latest-right (some x) none m h = cc h

latest-left : (a b : Option ℕ) (m : ℕ) → a ≡ some m → (n : ℕ) × (latest a b ≡ some n) × (m ≤ n)
latest-left none b m h = cc h
latest-left (some x) none m h = (x, refl, ground arith)
latest-left (some x) (some k) m h = (max x k, refl, ground arith)

-- The latest submission is no earlier than that of any adapter.
latest_of-bounds :
    (name : String) (cs : List AdapterControl) {c : AdapterControl} (last : ℕ)
    → find_by adapter_of name cs ≡ some c
    → c.last_submission_at ≡ some last
    → (n : ℕ) × (latest_of cs ≡ some n) × (last ≤ n)
latest_of-bounds name [] last found at = cc found
latest_of-bounds name (d ∷ ds) {c} last found at = elim (Bool-cases (str_eq d.adapter_name name)) [
  | inl e ↦
      let same : d ≡ c = some_injective (rw e at found) in
      latest-left d.last_submission_at (latest_of ds) last
        (ap (λ (x : AdapterControl). x.last_submission_at) same ∙ at)
  | inr e ↦
      let (n, is, up) = latest_of-bounds name ds last (rw e at found) at in
      let (m, is_too, further) = latest-right d.last_submission_at (latest_of ds) n is in
      (m, is_too, omega (arith, up, further))
]
  where
    some_injective : {x y : AdapterControl} → some x ≡ some y → x ≡ y
    some_injective e = cc

too_soon-paced :
    (interval now : ℕ) (o : Option ℕ) (n : ℕ)
    → is_too_soon interval now o ≡ false
    → o ≡ some n
    → n + interval ≤ now
too_soon-paced interval now none n h e = cc e
too_soon-paced interval now (some m) n h e = ground arith

runtime_clear :
    (c : RuntimeControl)
    → check_runtime c ≡ none
    → ((c.is_paused || c.is_stopped) ≡ false) × (filled c.manual_takeover_owner ≡ false)
runtime_clear c h = ground arith

raise_clear : (t : Bool) (e : GuardError) → raise_if t e ≡ none → t ≡ false
raise_clear t e h = ground arith

adapter_clear : (name : String) → check_adapter name ≡ none → is_supported name ≡ true
adapter_clear name h = ground arith

ownership_clear :
    (a : SafetyArgs) (now : ℕ) (o : Option AutomationJob)
    → check_ownership a now o ≡ none
    → (j : AutomationJob) × (o ≡ some j)
      × (j.is_cancelled ≡ false)
      × (is_text j.lease_owner a.worker_id ≡ true)
      × (j.fencing_generation ≡ a.generation)
      × (after j.lease_expires_at (now + submit_lease_margin_seconds) ≡ true)
ownership_clear a now none h = cc h
ownership_clear a now (some j) h = (j, refl, ground arith, ground arith, ground arith, ground arith)

control_clear :
    (o : Option AdapterControl) (now : ℕ) (db : Db)
    → check_control o now db ≡ none
    → (c : AdapterControl) × (o ≡ some c)
      × (min_canary_count ≤ c.confirmed_canary_count)
      × (c.is_enabled ≡ true)
      × (is_too_soon c.min_interval_seconds now (get_latest_submission_timestamp db) ≡ false)
      × (get_submissions_in_window 24 now db < c.max_daily_submissions)
control_clear none now db h = cc h
control_clear (some c) now db h = (c, refl, ground arith, ground arith, ground arith, ground arith)

-- Where the guard raises nothing for a real submission, all of this holds at once: automation is neither
-- paused nor stopped and no takeover owner is set; the disk has room; the worker owns the job under its
-- generation, the job is not cancelled and its lease lasts more than 20 seconds; the adapter is one of
-- greenhouse, lever and ashby, is enabled and has at least 3 confirmed canaries; the interval since the last
-- submission of any adapter has passed; and fewer than the adapter's daily limit were sent in 24 hours.
pub validate_pre_submit_safety-IsCleared :
    (a : SafetyArgs) (s : Surroundings) (db : Db)
    → a.is_mock ≡ false
    → validate_pre_submit_safety a s db ≡ none
    → IsCleared a s db
unfolding validate_pre_submit_safety
validate_pre_submit_safety-IsCleared a s db real h =
    let (r, h1) = coalesce-none _ _ h in
    let (d, h2) = coalesce-none _ _ h1 in
    let (o, h3) = coalesce-none _ _ h2 in
    let (e, h4) = coalesce-none _ _ h3 in
    let (u, h5) = coalesce-none _ _ h4 in
    let (c, h6) = coalesce-none _ _ h5 in
    let (running, free) = runtime_clear db.control r in
    let (j, found, alive, owned, current, lasting) =
      ownership_clear a s.now (get_job a.job_id db) o in
    let (k, controlled, proven, enabled, paced, below) =
      control_clear (get_adapter_control (s.lower a.adapter_name) db) s.now db (real_gate c) in
    let (until, leased, lasting) =
      after-until j.lease_expires_at (s.now + submit_lease_margin_seconds) lasting in
    record {
      unpaused = ground (arith, running);
      unstopped = ground (arith, running);
      free = unfilled db.control.manual_takeover_owner free;
      roomy = raise_clear s.is_under_pressure _ (real_gate d);
      job = j;
      found = found;
      alive = alive;
      owned = is_text→eq j.lease_owner a.worker_id owned;
      current = current;
      until = until;
      leased = leased;
      lasting = lasting;
      supported =
          supported-cases (s.lower a.adapter_name) (adapter_clear (s.lower a.adapter_name) e);
      adapter = k;
      controlled = controlled;
      proven = proven;
      enabled = enabled;
      paced = λ name c last found at.
          let (n, is, up) = latest_of-bounds name db.adapters last found at in
          let late =
            too_soon-paced k.min_interval_seconds s.now (get_latest_submission_timestamp db) n paced
              is in
          omega (arith, up, late);
      below_cap = rw (window-sent 24 s.now db) at below;
    }
  where
    real_gate : {x : Option GuardError} → unless_mock a.is_mock x ≡ none → x ≡ none
    real_gate g = rw real at g
