-- ===== src/Queue/Complete.antt =====
-- `complete_attempt` (src/job_applier/automation/queue.py).
pub mod Moves
pub mod Window
pub mod Stored
use job_applier.Base.{
  ℕ, String, Bool, true, false, not, ◌&&◌, Option, none, some, ltb, ◌==◌, str_eq, is_text,
  is_number, is_some, is_none, non_empty, keep_or, clip, if◌then◌else◌, update_where, count_where,
  find_where,
}
use job_applier.Queue.State.{ready, state_eq}
use job_applier.Queue.Db.{Db, AutomationJob, ApplicationAttempt, JobStatus, get_attempt}

-- What the caller of `complete_attempt` expects of the attempt, each part if it is given.
pub record Expected : Type 0 where
  pub job_id : Option String
  pub worker_id : Option String
  pub generation : Option ℕ

abbrev pub fits_text : Option String → String → Bool
fits_text none actual = true
fits_text (some t) actual = str_eq actual t

abbrev pub fits_column : Option String → Option String → Bool
fits_column none actual = true
fits_column (some t) actual = is_text actual t

abbrev pub fits_number : Option ℕ → Option ℕ → Bool
fits_number none actual = true
fits_number (some n) actual = is_number actual n

-- EXISTS of the job, added where a job and a generation are expected. A NULL owner matches nothing.
abbrev pub job_still_owned : Expected → ApplicationAttempt → Db → Bool
job_still_owned x a db = elim x.job_id [
  | none ↦ true
  | some job_id ↦ elim x.generation [
    | none ↦ true
    | some generation ↦ is_some (
        find_where
          (λ (j : AutomationJob).
            str_eq j.id a.job_id
            && (str_eq j.id job_id
                && (j.fencing_generation == generation
                    && (elim x.worker_id [ none ↦ false | some w ↦ is_text j.lease_owner w ]
                        && not (state_eq j.state ready)))))
          db.jobs)
  ]
]

abbrev pub may_complete : String → Expected → Db → ApplicationAttempt → Bool
may_complete attempt_id x db a =
    str_eq a.id attempt_id
    && (fits_text x.job_id a.job_id
        && (fits_column x.worker_id a.worker_id
            && (fits_number x.generation a.lease_generation && job_still_owned x a db)))

-- `redact` stands for `_sanitize_event_message`, which is regular expressions.
abbrev pub completed :
    (redact : String → String)
    → String
    → String
    → String
    → Bool
    → ℕ
    → ApplicationAttempt
    → ApplicationAttempt
completed redact outcome evidence details is_ambiguous now a = record a {
  outcome = some outcome;
  confirmation_evidence = some (clip 512 evidence);
  error_details = some (if non_empty details then redact details else "");
  redacted_error_code = keep_or outcome a.redacted_error_code;
  is_ambiguous = is_ambiguous;
  completed_at = some now;
}

-- The projection of a completion onto the job's status, unless another attempt has taken it over.
pub complete_status : Option ApplicationAttempt → String → ℕ → Db → Db
complete_status none outcome now db = db
complete_status (some a) outcome now db = record db {
  statuses =
      update_where
        (λ (s : JobStatus).
          str_eq s.job_id a.job_id
          && (if is_none s.attempt_id then true else is_text s.attempt_id a.id))
        (λ s. record s {
          attempt_id = some a.id;
          attempt_number = some a.attempt_number;
          outcome = some outcome;
          completed_at = some now;
          updated_at = now;
        })
        db.statuses;
}

pub complete_attempt :
    (redact : String → String) (attempt_id outcome evidence details : String) (is_ambiguous : Bool)
    (expected : Expected) (now : ℕ)
    → Db
    → Db × Bool
unfolding complete_status
complete_attempt redact attempt_id outcome evidence details is_ambiguous expected now db =
    let written = record db {
      attempts =
          update_where (may_complete attempt_id expected db)
            (completed redact outcome evidence details is_ambiguous now) db.attempts;
    } in
    if ltb 0 (count_where (may_complete attempt_id expected db) db.attempts)
    then (complete_status (get_attempt attempt_id written) outcome now written, true)
    else (db, false)
