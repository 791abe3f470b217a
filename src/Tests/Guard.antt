-- ===== src/Tests/Guard.antt =====
-- The guard and the emergency stop on a small queue.
use job_applier.Base.{
  ◌≤◌, ◌-◌, ◌*◌, ◌⊎◌, ℕ, ◌≡◌, ◌<◌, refl, none, some, [], ◌∷◌, true, false, arith, contains,
}
use job_applier.Adapters.{AdapterControl}
use job_applier.Queue.State.{ambiguous_submission, applied}
use job_applier.Queue.Db.{Db, get_job}
use job_applier.Queue.Failure.{lease_lost, went_to}
use job_applier.Queue.Recovery.{reconcile_stranded_jobs}
use job_applier.Queue.Recovery.Stranded.{IsAbandoned, reconcile_stranded_jobs-settles}
use job_applier.Queue.Db.{AutomationJob}
use job_applier.Guard.Limits.{get_adapter_control}
use job_applier.Guard.Limits.Enablement.{
  approve, switch, run_controls, is_proven?, run_controls-proven,
}
use job_applier.Guard.Safety.{SafetyArgs, Surroundings, validate_pre_submit_safety}
use job_applier.Guard.Safety.Cleared.{IsCleared, validate_pre_submit_safety-IsCleared}
use job_applier.Guard.Outcome.{
  execute_submit_intent, Evidence, Report, reconcile_submission_outcome,
  handle_exception_pause_and_alert,
}
use job_applier.Guard.Outcome.Cap.{submission-cap}
use job_applier.Guard.Outcome.Stored.{IsStored, reconcile_submission_outcome-stores}
use job_applier.Guard.Limits.Window.{sent_since}
use job_applier.Guard.Outcome.Stale.{report-stale}
use job_applier.Ops.DiskGuard.{Usage, default_thresholds, enforce_disk_pressure_guard}
use job_applier.Ops.DiskGuard.Closed.{has_room, enforce_disk_pressure_guard-outcome}
use job_applier.Ops.EmergencyStop.{StopArgs, Readings, emergency_stop}
use job_applier.Ops.EmergencyStop.Halts.{
  IsHalted, emergency_stop-IsHalted, emergency_stop-rejects_owner,
}
use job_applier.Tests.{working, submitting, attempt, queue}

abbrev greenhouse : AdapterControl
greenhouse = record {
  adapter_name = "greenhouse";
  is_enabled = true;
  confirmed_canary_count = 3;
  max_daily_submissions = 10;
  min_interval_seconds = 60;
  last_submission_at = none;
  updated_at = 10;
}

abbrev guarded : Db
guarded = record (queue working (attempt none ∷ [])) { adapters = greenhouse ∷ [] }

run_controls-proven_example :
    is_proven? (
      get_adapter_control "greenhouse" (
        run_controls
          (λ s. s)
          ((approve "greenhouse" "j1" "app" "alice" "seen" "x", 20)
            ∷ (switch "greenhouse" true, 30)
            ∷ [])
          guarded))
    ≡ true
run_controls-proven_example =
    run_controls-proven (λ s. s)
      ((approve "greenhouse" "j1" "app" "alice" "seen" "x", 20)
        ∷ (switch "greenhouse" true, 30)
        ∷ [])
      guarded (λ name. ground arith) "greenhouse"

abbrev submission : SafetyArgs
submission = record {
  job_id = "j1";
  worker_id = "w1";
  generation = 5;
  adapter_name = "greenhouse";
  profile_snapshot = record { email = some "a@b.c"; full_name = none };
  artifact_revisions = record { folder = "out"; cv_filename = "cv.pdf"; cv_mtime = some 5000 };
  is_mock = false;
}

abbrev around : Surroundings
around = record {
  lower = λ s. s;
  is_under_pressure = false;
  profile = some (record { email = "a@b.c"; full_name = "A B" });
  cv_file = some (record { size = 900; mtime = 5500 });
  now = 120;
}

validate_pre_submit_safety-IsCleared_example : IsCleared submission around guarded
unfolding validate_pre_submit_safety contains
validate_pre_submit_safety-IsCleared_example =
    validate_pre_submit_safety-IsCleared submission around guarded refl refl

abbrev report : ℕ → Report
report generation = record {
  job_id = "j1";
  app_id = "app";
  attempt_id = some "a1";
  worker_id = "w1";
  generation = generation;
  adapter_name = "greenhouse";
  lower = λ s. s;
  redact = λ s. s;
  fresh = "x";
  fresh_item = "y";
}

abbrev thanked : Evidence
thanked = record {
  confirmed = true;
  is_ambiguous = false;
  confirmation_text = "Thank you";
  json = "{}";
}

abbrev pub in_doubt : Db
in_doubt = queue submitting (attempt (some 110) ∷ [])

submission-cap_example :
    (c : AdapterControl) × (get_adapter_control "greenhouse" guarded ≡ some c)
    × (sent_since
          (130 - 24 * 3600)
          (reconcile_submission_outcome
            (report 5)
            thanked
            130
            400
            (execute_submit_intent "j1" "a1" "w1" 5 121 guarded).0).0.attempts
        ≤ c.max_daily_submissions)
unfolding validate_pre_submit_safety contains
submission-cap_example =
    submission-cap submission around (report 5) thanked "a1" 121 130 400 130 guarded (refl, tt) refl
      refl refl (omega arith)

reconcile_submission_outcome-stores_example :
    ((reconcile_submission_outcome (report 5) thanked 130 400 in_doubt).1 ≡ went_to applied)
    × IsStored
        (report 5)
        "a1"
        130
        (reconcile_submission_outcome (report 5) thanked 130 400 in_doubt).0
reconcile_submission_outcome-stores_example =
    reconcile_submission_outcome-stores (report 5) thanked "a1" 130 400 in_doubt (refl, tt)
      (refl, tt) refl refl
      (record {
        reported = refl;
        job = submitting;
        found = refl;
        owner = refl;
        current = refl;
        alive = refl;
        until = 160;
        leased = refl;
        live = omega arith;
        attempt = attempt (some 110);
        tried = refl;
        of_job = refl;
        of_worker = refl;
        of_generation = refl;
      })

report-stale_example :
    (reconcile_submission_outcome (report 4) thanked 130 400 guarded ≡ (guarded, lease_lost))
    × (handle_exception_pause_and_alert (report 4) false "TimeoutError" "slow" 130 400 guarded
        ≡ (guarded, lease_lost))
report-stale_example =
    report-stale (report 4) 130 400 guarded (refl, tt)
      (record { job = working; found = refl; past = omega arith }) thanked false "TimeoutError"
      "slow"

reconcile_stranded_jobs-settles_example :
    (IsAbandoned 200 submitting
      → (j' : AutomationJob) × (get_job "j1" (reconcile_stranded_jobs (λ id. id) 200 in_doubt).0
          ≡ some j')
        × (j'.state ≡ ambiguous_submission)
        × (5 < j'.fencing_generation))
    × (¬ IsAbandoned 200 submitting
        → get_job "j1" (reconcile_stranded_jobs (λ id. id) 200 in_doubt).0 ≡ some submitting)
reconcile_stranded_jobs-settles_example =
    reconcile_stranded_jobs-settles (λ id. id) 200 in_doubt (refl, tt) "j1" submitting refl

abbrev stop : StopArgs
stop = record {
  reason = "drill";
  expected_owner = none;
  upper = λ s. s;
  fresh = λ id. id;
  fresh_alert = "x";
}

abbrev clocks : Readings
clocks = record { first = 400; second = 401; third = 402 }

emergency_stop-IsHalted_example :
    ((n : ℕ) × ((emergency_stop stop 120 clocks in_doubt).1 ≡ some n))
    × IsHalted in_doubt (emergency_stop stop 120 clocks in_doubt).0
emergency_stop-IsHalted_example = emergency_stop-IsHalted stop 120 clocks in_doubt (refl, tt) refl

-- The caller holds the takeover until 500.
abbrev pub held : Db
held = record in_doubt {
  control = record (in_doubt.control) {
    is_paused = true;
    manual_takeover_owner = some "alice";
    manual_takeover_expires_at = some 500;
  };
}

emergency_stop-rejects_owner_example :
    emergency_stop (record stop { expected_owner = some "alice" }) 120 clocks held ≡ (held, none)
emergency_stop-rejects_owner_example =
    emergency_stop-rejects_owner (record stop { expected_owner = some "alice" }) 120 clocks held
      "alice" refl

abbrev full_volume : Usage
full_volume = record { free = 1000; total = 1000000 }

enforce_disk_pressure_guard-outcome_example :
    ((has_room default_thresholds (some full_volume ∷ []) ≡ true)
      × (enforce_disk_pressure_guard default_thresholds
            (some full_volume ∷ [])
            (λ free. "full")
            "n1"
            "o1"
            400
            401
            in_doubt
          ≡ (in_doubt, true)))
    ⊎ ((has_room default_thresholds (some full_volume ∷ []) ≡ false)
        × ((enforce_disk_pressure_guard default_thresholds
              (some full_volume ∷ [])
              (λ free. "full")
              "n1"
              "o1"
              400
              401
              in_doubt).1
            ≡ false)
        × ((enforce_disk_pressure_guard default_thresholds
              (some full_volume ∷ [])
              (λ free. "full")
              "n1"
              "o1"
              400
              401
              in_doubt).0.control.is_paused
            ≡ true)
        × ((enforce_disk_pressure_guard default_thresholds
              (some full_volume ∷ [])
              (λ free. "full")
              "n1"
              "o1"
              400
              401
              in_doubt).0.jobs
            ≡ in_doubt.jobs))
enforce_disk_pressure_guard-outcome_example =
    enforce_disk_pressure_guard-outcome default_thresholds (some full_volume ∷ []) (λ free. "full")
      "n1" "o1" 400 401 in_doubt
