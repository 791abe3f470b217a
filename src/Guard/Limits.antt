-- ===== src/Guard/Limits.antt =====
-- The controls and limits of the adapters (src/job_applier/db.py). `lower` stands for `str.lower`.
pub mod Enablement
pub mod Window
use job_applier.Base.{
  ℕ, ◌+◌, ◌-◌, ◌*◌, String, Bool, true, false, not, ◌&&◌, ◌||◌, Option, none, some, List, [], ◌∷◌,
  ◌++◌, max, ltb, leb, str_eq, is_text, is_some, ◌<>◌, if◌then◌else◌, find_by, update_where,
  count_where,
}
use job_applier.Adapters.{AdapterControl, AdapterCanary}
use job_applier.Queue.Db.{Db, ApplicationAttempt, Result, ok, raised, value_error, integrity_error}

abbrev pub adapter_of : AdapterControl → String
adapter_of c = c.adapter_name

abbrev pub canary_of : AdapterCanary → String
canary_of c = c.id

-- `name` is the adapter's name in lower case.
abbrev pub get_adapter_control : (name : String) → Db → Option AdapterControl
get_adapter_control name db = find_by adapter_of name db.adapters

-- UPDATE adapter_controls SET … WHERE adapter_name = ?
abbrev pub update_adapter : String → (AdapterControl → AdapterControl) → Db → Db
update_adapter name f db = record db {
  adapters = update_where (λ (c : AdapterControl). str_eq c.adapter_name name) f db.adapters;
}

-- INSERT INTO adapter_canaries: the id must be new, and the adapter must be there.
abbrev pub insert_canary : AdapterCanary → Db → Option Db
insert_canary c db =
    if is_some (find_by canary_of c.id db.canaries)
    then none
    else if is_some (get_adapter_control c.adapter_name db)
    then some (record db { canaries = db.canaries ++ c ∷ [] })
    else none

-- The count after the canary that was inserted.
abbrev pub count_canary : String → ℕ → Option Db → Db → Db × Result (Option AdapterControl)
count_canary name now none db = (db, raised integrity_error)
count_canary name now (some inserted) db =
    let counted =
      update_adapter name
        (λ c. record c { confirmed_canary_count = c.confirmed_canary_count + 1; updated_at = now })
        inserted in
    (counted, ok (get_adapter_control name counted))

pub record_canary_approval :
    (lower : String → String)
    (adapter_name job_id app_id approved_by confirmation_evidence fresh : String) (now : ℕ)
    → Db
    → Db × Result (Option AdapterControl)
record_canary_approval lower adapter_name job_id app_id approved_by confirmation_evidence fresh now
      db =
    if str_eq (lower adapter_name) "generic"
    then (db, raised value_error)
    else count_canary (lower adapter_name) now
        (insert_canary
          (record {
            id = "canary_" <> adapter_name <> "_" <> fresh;
            adapter_name = lower adapter_name;
            job_id = job_id;
            app_id = app_id;
            approved_by = approved_by;
            confirmation_evidence = confirmation_evidence;
            created_at = now;
          })
          db)
        db

-- The refusals of `set_adapter_enabled` on the row that it read.
abbrev pub switch_adapter : String → Bool → ℕ → Option AdapterControl → Db → Db × Result Bool
switch_adapter name enabled now none db = (db, raised value_error)
switch_adapter name enabled now (some c) db =
    if enabled && ltb c.confirmed_canary_count 3 then (db, raised value_error) else (
      update_adapter name (λ r. record r { is_enabled = enabled; updated_at = now }) db,
      ok true,
    )

pub set_adapter_enabled :
    (lower : String → String) (adapter_name : String) (enabled : Bool) (now : ℕ)
    → Db
    → Db × Result Bool
set_adapter_enabled lower adapter_name enabled now db =
    if str_eq (lower adapter_name) "generic" && enabled
    then (db, raised value_error)
    else switch_adapter (lower adapter_name) enabled now
        (get_adapter_control (lower adapter_name) db) db

abbrev pub record_submission_timestamp : (name : String) (now : ℕ) → Db → Db
record_submission_timestamp name now db =
    update_adapter name (λ c. record c { last_submission_at = some now; updated_at = now }) db

abbrev pub latest : Option ℕ → Option ℕ → Option ℕ
latest none b = b
latest (some a) none = some a
latest (some a) (some b) = some (max a b)

-- SELECT MAX(last_submission_at)
abbrev pub latest_of : List AdapterControl → Option ℕ
latest_of [] = none
latest_of (c ∷ cs) = latest c.last_submission_at (latest_of cs)

abbrev pub get_latest_submission_timestamp : Db → Option ℕ
get_latest_submission_timestamp db = latest_of db.adapters

-- `outcome = 'applied' AND completed_at >= ?`
abbrev pub applied_since : ℕ → Option String → Option ℕ → Bool
applied_since cutoff outcome none = false
applied_since cutoff outcome (some t) = is_text outcome "applied" && leb cutoff t

-- The cutoff of a window that reaches back before the epoch is the epoch.
abbrev pub get_submissions_in_window : (window_hours now : ℕ) → Db → ℕ
get_submissions_in_window window_hours now db =
    count_where
      (λ (a : ApplicationAttempt).
        applied_since (now - window_hours * 3600) a.outcome a.completed_at)
      db.attempts
