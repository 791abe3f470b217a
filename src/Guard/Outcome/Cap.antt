-- ===== src/Guard/Outcome/Cap.antt =====
-- The daily limit, from the guard's check to the submission that is confirmed.
use job_applier.Base.{
  subst, ◌-◌, ◌*◌, ℕ, ◌+◌, ◌≡◌, ◌≤◌, ◌<◌, refl, sym, Bool, true, false, not, ◌&&◌, String, none,
  some, arith, IsKeyed,
}
use job_applier.Adapters.{AdapterControl}
use job_applier.Queue.Db.{Db, attempt_id_of, set_application}
use job_applier.Queue.Events.{event}
use job_applier.Queue.Events.Steady.{IsSteady, IsSteady-same, IsSteady-trans, record_event-IsSteady}
use job_applier.Queue.Transition.{transition_job}
use job_applier.Queue.Transition.Steady.{transition_job-IsSteady}
use job_applier.Queue.Complete.Window.{complete_attempt-window}
use job_applier.Queue.Intent.{record_submit_intent}
use job_applier.Queue.Intent.Steady.{record_submit_intent-IsSteady}
use job_applier.Guard.Limits.{
  get_adapter_control, record_submission_timestamp, get_submissions_in_window,
}
use job_applier.Guard.Limits.Window.{sent_since, window-sent, window-steady, window-later}
use job_applier.Guard.Safety.{SafetyArgs, Surroundings, validate_pre_submit_safety}
use job_applier.Guard.Safety.Cleared.{validate_pre_submit_safety-IsCleared}
use job_applier.Guard.Outcome.{
  Evidence, Report, attempt_text, expected_of, or_abort, execute_submit_intent, to_applied, confirm,
  project_applied, complete_applied, reconcile_submission_outcome,
}

module _ (r : Report) (e : Evidence) (now utc hours at : ℕ) where
  project_applied-window :
      (db : Db)
      → IsKeyed attempt_id_of db.attempts
      → get_submissions_in_window hours at (project_applied r e now utc db)
        ≤ get_submissions_in_window hours at db + 1
  unfolding project_applied
  project_applied-window db keyed = ground (
    arith,
    window-steady hours at (
        IsSteady-trans
          (IsSteady-same {a = complete_applied r e now db}
            {b = set_application r.app_id "applied" none utc (
              record_submission_timestamp (r.lower r.adapter_name) now
                (complete_applied r e now db))}
            refl)
          (record_event-IsSteady
            (event (some r.job_id) (some r.app_id) "application_applied" "SUCCESS" "applied") now
            _)),
    complete_attempt-window r.redact (attempt_text r.attempt_id) "applied" e.json "" false
        (expected_of r) now hours at db keyed,
  )

  confirm-window :
      (x : Db × Bool)
      → IsKeyed attempt_id_of x.0.attempts
      → get_submissions_in_window hours at (confirm r e now utc x).0
        ≤ get_submissions_in_window hours at x.0 + 1
  confirm-window (db, false) keyed = omega arith
  confirm-window (db, true) keyed = project_applied-window db keyed

  reconcile-window :
      (db : Db)
      → (e.confirmed && not e.is_ambiguous) ≡ true
      → IsKeyed attempt_id_of db.attempts
      → get_submissions_in_window hours at (reconcile_submission_outcome r e now utc db).0
        ≤ get_submissions_in_window hours at db + 1
  unfolding reconcile_submission_outcome
  reconcile-window db sure keyed =
      let steady = transition_job-IsSteady (to_applied r) now db in
      simp sure (
        rw (sym (window-steady hours at steady))
          (confirm-window (transition_job (to_applied r) now db) (steady.keyed keyed)))

execute-IsSteady :
    (job_id attempt_id worker_id : String) (generation now : ℕ) (db : Db)
    → IsSteady db (execute_submit_intent job_id attempt_id worker_id generation now db).0
unfolding execute_submit_intent
execute-IsSteady job_id attempt_id worker_id generation now db =
    either (record_submit_intent attempt_id job_id worker_id generation now db)
      (record_submit_intent-IsSteady attempt_id job_id worker_id generation now db)
  where
    either : (x : Db × Bool) → IsSteady db x.0 → IsSteady db (or_abort x).0
    either (d, true) h = h
    either (d, false) h = h

-- The daily limit holds after the submission too. The guard lets a real submission through, the intent to
-- submit is stored, and later the submission is reported as confirmed and not ambiguous: the attempts with the
-- outcome applied that were completed in the 24 hours before the guard's check or before any later time, this
-- one included, are then no more than the adapter's daily limit. It is assumed that no two attempts have one id
-- and that nothing else runs in between.
pub submission-cap :
    (a : SafetyArgs) (s : Surroundings) (r : Report) (e : Evidence) (attempt_id : String)
    (intent_at now utc later : ℕ) (db : Db)
    → IsKeyed attempt_id_of db.attempts
    → a.is_mock ≡ false
    → validate_pre_submit_safety a s db ≡ none
    → (e.confirmed && not e.is_ambiguous) ≡ true
    → s.now ≤ later
    → (c : AdapterControl) × (get_adapter_control (s.lower a.adapter_name) db ≡ some c)
      × (sent_since
            (later - 24 * 3600)
            (reconcile_submission_outcome r e now utc
              (execute_submit_intent a.job_id attempt_id a.worker_id a.generation intent_at
                db).0).0.attempts
          ≤ c.max_daily_submissions)
submission-cap a s r e attempt_id intent_at now utc later db keyed real clear sure after_it =
    let cleared = validate_pre_submit_safety-IsCleared a s db real clear in
    let stored =
      (execute_submit_intent a.job_id attempt_id a.worker_id a.generation intent_at db).0 in
    let sent = (reconcile_submission_outcome r e now utc stored).0 in
    let steady = execute-IsSteady a.job_id attempt_id a.worker_id a.generation intent_at db in
    (
      cleared.adapter,
      cleared.controlled,
      subst (λ n. n ≤ cleared.adapter.max_daily_submissions) (window-sent 24 later sent)
          (one_more (reconcile-window r e now utc 24 later stored sure (steady.keyed keyed))
            (window-steady 24 later steady) (window-later 24 s.now later db after_it)
            (rw (window-sent 24 s.now db) cleared.below_cap)),
    )
  where
    one_more : {x y z w c : ℕ} → x ≤ y + 1 → y ≡ z → z ≤ w → w < c → x ≤ c
    one_more h k l m = omega arith
