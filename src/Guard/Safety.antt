-- ===== src/Guard/Safety.antt =====
-- `SubmissionSafetyGuard.validate_pre_submit_safety` and `validate_pacing_and_daily_limits`
-- (src/job_applier/automation/safety_guard.py). The checks read and never write: each is a function to
-- the error that it raises, and the first error of the sequence is raised. What the disk, the profile
-- file and Python's `str.lower` answer is an argument.
pub mod Cleared
use job_applier.Base.{
  ℕ, ◌+◌, ◌-◌, String, Bool, true, false, not, ◌&&◌, ◌||◌, Option, none, some, ltb, leb, ◌==◌,
  str_eq, is_text, filled, non_empty, coalesce, after, contains, if◌then◌else◌,
}
use job_applier.Adapters.{AdapterControl}
use job_applier.Queue.Db.{Db, AutomationJob, Application, RuntimeControl, get_job, get_application}
use job_applier.Queue.Intent.{submit_lease_margin_seconds}
use job_applier.Guard.Limits.{
  get_adapter_control, get_latest_submission_timestamp, get_submissions_in_window,
}

-- The exceptions; `safety_guard` is the base class.
pub data GuardError : Type 0 where
  safety_guard fencing_ownership_lost automation_paused_or_stopped takeover_active
        generic_adapter_submission_blocked canary_requirement_unmet adapter_disabled
        daily_submission_limit_exceeded submission_pacing_violation frozen_revision_mismatch
        missing_artifact aggregator_blocked disk_pressure :
      GuardError

-- The fields of a profile that must not change.
pub record ProfileSnapshot : Type 0 where
  pub email : String
  pub full_name : String

-- What a stored profile has of them: a missing field and an empty text are not compared.
pub record FrozenProfile : Type 0 where
  pub email : Option String
  pub full_name : Option String

-- The CV on the disk. Modification times are numbers of milliseconds.
pub record CvFile : Type 0 where
  pub size : ℕ
  pub mtime : ℕ

pub record ArtifactRevisions : Type 0 where
  pub folder : String
  pub cv_filename : String
  pub cv_mtime : Option ℕ

pub record SafetyArgs : Type 0 where
  pub job_id : String
  pub worker_id : String
  pub generation : ℕ
  pub adapter_name : String
  pub profile_snapshot : FrozenProfile
  pub artifact_revisions : ArtifactRevisions
  pub is_mock : Bool

-- The answers of the surroundings. `profile` is `none` where it cannot be loaded, and `cv_file` where
-- there is no such file.
pub record Surroundings : Type 0 where
  pub lower : String → String
  pub is_under_pressure : Bool
  pub profile : Option ProfileSnapshot
  pub cv_file : Option CvFile
  pub now : ℕ

-- `raise error` where the test holds
abbrev pub raise_if : Bool → GuardError → Option GuardError
raise_if test error = if test then some error else none

-- 1. runtime control
abbrev pub check_runtime : RuntimeControl → Option GuardError
check_runtime c =
    if c.is_paused || c.is_stopped
    then some automation_paused_or_stopped
    else raise_if (filled c.manual_takeover_owner) takeover_active

-- 2. ownership and generation
abbrev pub check_ownership : SafetyArgs → ℕ → Option AutomationJob → Option GuardError
check_ownership a now none = some fencing_ownership_lost
check_ownership a now (some j) =
    if j.is_cancelled
    then some safety_guard
    else raise_if
        (not (is_text j.lease_owner a.worker_id)
          || (not (j.fencing_generation == a.generation)
              || not (after j.lease_expires_at (now + submit_lease_margin_seconds))))
        fencing_ownership_lost

abbrev pub is_supported : String → Bool
is_supported name = str_eq name "greenhouse" || (str_eq name "lever" || str_eq name "ashby")

-- 3. eligibility of the adapter
abbrev pub check_adapter : String → Option GuardError
check_adapter name =
    if str_eq name "generic"
    then some generic_adapter_submission_blocked
    else raise_if (not (is_supported name)) safety_guard

-- `"jobicy.com" in url or "jobicy." in url`
abbrev pub is_aggregator : String → Bool
is_aggregator url = contains url "jobicy.com" || contains url "jobicy."

abbrev pub check_url : (String → String) → Option String → Option GuardError
check_url lower none = none
check_url lower (some url) =
    raise_if (non_empty url && is_aggregator (lower url)) aggregator_blocked

-- 3b. the application of the job
abbrev pub url_of : Option Application → Option String
url_of none = none
url_of (some a) = a.job_url

abbrev pub check_aggregator : (String → String) → Option AutomationJob → Db → Option GuardError
check_aggregator lower none db = none
check_aggregator lower (some j) db = check_url lower (url_of (get_application j.app_id db))

abbrev pub min_canary_count : ℕ
min_canary_count = 3

-- 5. `elapsed < min_interval`
abbrev pub is_too_soon : ℕ → ℕ → Option ℕ → Bool
is_too_soon min_interval now none = false
is_too_soon min_interval now (some last) = ltb now (last + min_interval)

abbrev pub check_limits : AdapterControl → ℕ → Db → Option GuardError
check_limits c now db =
    if is_too_soon c.min_interval_seconds now (get_latest_submission_timestamp db)
    then some submission_pacing_violation
    else raise_if (leb c.max_daily_submissions (get_submissions_in_window 24 now db))
        daily_submission_limit_exceeded

-- 4. canaries and enablement, then the limits
abbrev pub check_control : Option AdapterControl → ℕ → Db → Option GuardError
check_control none now db = some safety_guard
check_control (some c) now db =
    if ltb c.confirmed_canary_count min_canary_count
    then some canary_requirement_unmet
    else if not c.is_enabled
    then some adapter_disabled
    else check_limits c now db

-- `snapshot.get(field) and current != snapshot.get(field)`
abbrev pub is_changed : Option String → String → Bool
is_changed none current = false
is_changed (some frozen) current = non_empty frozen && not (str_eq current frozen)

-- 6. the frozen profile
abbrev pub check_profile : FrozenProfile → Option ProfileSnapshot → Option GuardError
check_profile frozen none = none
check_profile frozen (some p) =
    raise_if (is_changed frozen.email p.email || is_changed frozen.full_name p.full_name)
      frozen_revision_mismatch

-- `abs(a - b) > 2.0` seconds
abbrev pub has_drifted : Option ℕ → ℕ → Bool
has_drifted none actual = false
has_drifted (some expected) actual = ltb 2000 ((actual - expected) + (expected - actual))

abbrev pub check_file : Option ℕ → Option CvFile → Option GuardError
check_file cv_mtime none = some missing_artifact
check_file cv_mtime (some f) =
    if f.size == 0
    then some missing_artifact
    else raise_if (has_drifted cv_mtime f.mtime) frozen_revision_mismatch

-- 7. the frozen documents
abbrev pub check_artifacts : ArtifactRevisions → Option CvFile → Option GuardError
check_artifacts r file =
    if non_empty r.folder && non_empty r.cv_filename then check_file r.cv_mtime file else none

-- A gate that is left out for fixtures.
abbrev pub unless_mock : Bool → Option GuardError → Option GuardError
unless_mock is_mock check = if is_mock then none else check

-- The error that is raised, or `none`.
unfoldable pub validate_pre_submit_safety : SafetyArgs → Surroundings → Db → Option GuardError
validate_pre_submit_safety a s db = coalesce (check_runtime db.control) (
    coalesce (unless_mock a.is_mock (raise_if s.is_under_pressure disk_pressure)) (
      coalesce (check_ownership a s.now (get_job a.job_id db)) (
        coalesce (check_adapter (s.lower a.adapter_name)) (
          coalesce (check_aggregator s.lower (get_job a.job_id db) db) (
            coalesce
              (unless_mock a.is_mock
                (check_control (get_adapter_control (s.lower a.adapter_name) db) s.now db))
              (coalesce (check_profile a.profile_snapshot s.profile)
                (check_artifacts a.artifact_revisions s.cv_file)))))))

abbrev pub check_limits_early : Option AdapterControl → ℕ → Db → Option GuardError
check_limits_early none now db = none
check_limits_early (some c) now db = check_limits c now db

pub validate_pacing_and_daily_limits :
    (lower : String → String) (adapter_name : String) (now : ℕ) → Db → Option GuardError
validate_pacing_and_daily_limits lower adapter_name now db =
    if is_supported (lower adapter_name)
    then check_limits_early (get_adapter_control (lower adapter_name) db) now db
    else none
