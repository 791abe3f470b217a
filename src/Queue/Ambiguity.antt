-- ===== src/Queue/Ambiguity.antt =====
-- The ambiguous outcome (src/job_applier/automation/queue.py): `mark_job_ambiguous` and its projection
-- onto the attempt, the status, the application, the pause flag, the event log and the alerts.
pub mod Moves
pub mod Rows
pub mod Stale
pub mod Outcome
use job_applier.Base.{
  ℕ, ◌+◌, String, Bool, true, false, not, ◌&&◌, ◌||◌, Option, none, some, List, [], ◌∷◌, ◌++◌, ltb,
  ◌==◌, str_eq, is_text, is_some, is_none, filled, or_else, coalesce, clip, ◌<>◌, after,
  if◌then◌else◌, update_where, count_where, find_where, best_where,
}
use job_applier.Queue.State.{JobState, ambiguous_submission, state_eq, is_preparing, is_submitting}
use job_applier.Queue.Db.{
  Db, AutomationJob, ApplicationAttempt, Application, Event, JobStatus, Notification, OutboxItem,
  get_job, get_application, set_application, pause,
}
use job_applier.Queue.Alert.{has_alert, record_alert}
use job_applier.Queue.Events.{EventArgs, event, record_event}

-- The arguments of `mark_job_ambiguous`; `is_source` is the membership in `source_states`.
pub record AmbiguityArgs : Type 0 where
  pub job_id : String
  pub reason : String
  pub expected_worker_id : Option String
  pub expected_generation : Option ℕ
  pub is_source : JobState → Bool
  pub checkpoint : String
  pub error_code : String
  pub pause_runtime : Bool
  pub attempt_id : Option String
  pub operation_key : Option String
  pub repair_existing : Bool
  pub event_type : String
  pub require_live_lease : Bool
  -- the random part of the alert's id
  pub fresh : String

abbrev pub default_source : JobState → Bool
default_source s = is_preparing s || is_submitting s

-- The defaults of the signature.
abbrev pub ambiguity : String → String → String → AmbiguityArgs
ambiguity job_id reason fresh = record {
  job_id = job_id;
  reason = reason;
  expected_worker_id = none;
  expected_generation = none;
  is_source = default_source;
  checkpoint = "ambiguous_submission";
  error_code = "POST_SUBMIT_UNCERTAIN";
  pause_runtime = true;
  attempt_id = none;
  operation_key = none;
  repair_existing = false;
  event_type = "ambiguous_submission";
  require_live_lease = false;
  fresh = fresh;
}

abbrev pub message_of : AmbiguityArgs → String
message_of m = clip 1000 m.reason

-- ORDER BY created_at DESC
abbrev newer_attempt : ApplicationAttempt → ApplicationAttempt → Bool
newer_attempt a b = ltb b.created_at a.created_at

abbrev pub is_closed_ambiguous : Option ApplicationAttempt → Bool
is_closed_ambiguous none = true
is_closed_ambiguous (some a) = is_some a.completed_at && a.is_ambiguous

abbrev pub is_ambiguous_application : Option Application → Bool
is_ambiguous_application none = false
is_ambiguous_application (some a) = str_eq a.status "ambiguous"

-- Nothing of the projection is missing.
pub is_projected : AutomationJob → Db → Bool
is_projected row db =
    is_closed_ambiguous
      (best_where newer_attempt (λ (a : ApplicationAttempt). str_eq a.job_id row.id) db.attempts)
    && (is_ambiguous_application (get_application row.app_id db)
        && (is_some (
              find_where
                (λ (e : Event).
                  is_text e.job_id row.id && str_eq e.event_type "ambiguous_submission")
                db.events)
            && has_alert row.id db.outbox))

-- The attempt that the outcome is about: the one named, or else the newest that is open or ambiguous.
pub attempt_for : AmbiguityArgs → Db → Option ApplicationAttempt
attempt_for m db =
    let named =
      if filled m.attempt_id
      then find_where
          (λ (a : ApplicationAttempt). is_text m.attempt_id a.id && str_eq a.job_id m.job_id)
          db.attempts
      else none in
    coalesce named (
      best_where newer_attempt
        (λ (a : ApplicationAttempt).
          str_eq a.job_id m.job_id && (is_none a.completed_at || a.is_ambiguous))
        db.attempts)

close_attempt : AmbiguityArgs → Option ApplicationAttempt → ℕ → Db → Db
close_attempt m none now db = db
close_attempt m (some t) now db = record db {
  attempts =
      update_where (λ (a : ApplicationAttempt). str_eq a.id t.id && str_eq a.job_id m.job_id)
        (λ a. record a {
          outcome = some "ambiguous";
          confirmation_evidence = some (message_of m);
          error_details = some (message_of m);
          is_ambiguous = true;
          completed_at = coalesce a.completed_at (some now);
        })
        db.attempts;
  statuses =
      update_where
        (λ (s : JobStatus).
          str_eq s.job_id m.job_id && (is_none s.attempt_id || is_text s.attempt_id t.id))
        (λ s. record s {
          attempt_id = some t.id;
          attempt_number = some t.attempt_number;
          outcome = some "ambiguous";
          completed_at = coalesce s.completed_at (some now);
          updated_at = now;
        })
        db.statuses;
}

abbrev id_of_attempt : Option ApplicationAttempt → Option String
id_of_attempt none = none
id_of_attempt (some a) = some a.id

abbrev number_of_attempt : Option ApplicationAttempt → Option ℕ
number_of_attempt none = none
number_of_attempt (some a) = some a.attempt_number

ambiguity_event : AmbiguityArgs → AutomationJob → Option ApplicationAttempt → EventArgs
ambiguity_event m row attempt =
    record (event (some m.job_id) (some row.app_id) m.event_type "CRITICAL"
      "ambiguous_submission") {
        attempt_id = id_of_attempt attempt;
        attempt_number = number_of_attempt attempt;
        event_key = some (
            or_else m.operation_key
              ("ambiguous:" <> m.job_id <> ":" <> m.checkpoint <> ":" <> m.error_code));
        worker_id = m.expected_worker_id;
        lease_generation = m.expected_generation;
        from_state = some row.state;
        to_state = some ambiguous_submission;
        outcome_code = some "ambiguous_submission";
      }

-- The attempt, the application and the pause flag.
abbrev settled : AmbiguityArgs → AutomationJob → ℕ → Db → Db
settled m row now db =
    let marked =
      set_application row.app_id "ambiguous" (some (message_of m)) now
        (close_attempt m (attempt_for m db) now db) in
    if m.pause_runtime then pause now marked else marked

abbrev logged : AmbiguityArgs → AutomationJob → ℕ → Db → Db × ℕ
logged m row now db =
    record_event (ambiguity_event m row (attempt_for m db)) now (settled m row now db)

-- What follows the change of the job, `row` being the job as it was read.
pub project_ambiguity : AmbiguityArgs → AutomationJob → ℕ → Db → Db
unfolding close_attempt ambiguity_event record_alert
project_ambiguity m row now db =
    record_alert m.job_id (some row.app_id) (logged m row now db).1 (message_of m) m.fresh now
      (logged m row now db).0

abbrev fits_owner : Option String → Option String → Bool
fits_owner none owner = true
fits_owner (some w) owner = is_text owner w

abbrev fits_generation : Option ℕ → ℕ → Bool
fits_generation none generation = true
fits_generation (some g) generation = generation == g

-- The WHERE of the UPDATE: the state that was read, and what the caller expects.
abbrev pub may_become_ambiguous : AmbiguityArgs → JobState → ℕ → AutomationJob → Bool
may_become_ambiguous m previous now j =
    str_eq j.id m.job_id
    && (state_eq j.state previous
        && (fits_owner m.expected_worker_id j.lease_owner
            && (fits_generation m.expected_generation j.fencing_generation
                && (if m.require_live_lease then after j.lease_expires_at now else true))))

-- The SET of the UPDATE: the lease is given up, and the generation is new.
abbrev pub as_ambiguous : AmbiguityArgs → ℕ → AutomationJob → AutomationJob
as_ambiguous m now j = record j {
  state = ambiguous_submission;
  checkpoint = some m.checkpoint;
  lease_owner = none;
  lease_expires_at = none;
  fencing_generation = j.fencing_generation + 1;
  error_code = some m.error_code;
  error_message = some (message_of m);
  updated_at = now;
}

pub make_ambiguous : AmbiguityArgs → AutomationJob → ℕ → Db → Db × Bool
make_ambiguous m row now db =
    let changed = record db {
      jobs = update_where (may_become_ambiguous m row.state now) (as_ambiguous m now) db.jobs;
    } in
    if count_where (may_become_ambiguous m row.state now) db.jobs == 1
    then (project_ambiguity m row now changed, true)
    else (db, false)

mark_row : AmbiguityArgs → Option AutomationJob → ℕ → Db → Db × Bool
unfolding make_ambiguous
mark_row m none now db = (db, false)
mark_row m (some row) now db =
    if state_eq row.state ambiguous_submission
    then if not m.repair_existing || is_projected row db
      then (db, false)
      else (project_ambiguity m row now db, true)
    else if m.is_source row.state
    then make_ambiguous m row now db
    else (db, false)

pub mark_job_ambiguous : AmbiguityArgs → (now : ℕ) → Db → Db × Bool
unfolding mark_row
mark_job_ambiguous m now db = mark_row m (get_job m.job_id db) now db
