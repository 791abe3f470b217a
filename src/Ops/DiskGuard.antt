-- ===== src/Ops/DiskGuard.antt =====
-- The disk guard (src/job_applier/ops/disk_guard.py): `check_disk_pressure` and
-- `enforce_disk_pressure_guard`. What `shutil.disk_usage` answers for each target is an argument, `none` where
-- it raises an OSError; a percentage is a whole number and compared without rounding. The thresholds are taken
-- as already chosen. The last reading, of the project's root after every target passed, only fills the answer's
-- figures: it is not modelled, and neither is the sweep of old debug files.
pub mod Closed
use job_applier.Base.{
  ℕ, ◌*◌, String, Bool, true, false, not, ◌&&◌, ◌||◌, Option, none, some, List, [], ◌∷◌, ltb, ◌==◌,
  if◌then◌else◌,
}
use job_applier.Queue.Db.{Db}
use job_applier.Queue.Events.{event, log_event}
use job_applier.Queue.Control.{set_runtime_pause}
use job_applier.Queue.Outbox.{enqueue_notification}

pub record Usage : Type 0 where
  pub free : ℕ
  pub total : ℕ

pub record Thresholds : Type 0 where
  pub min_free_bytes : ℕ
  pub min_free_percent : ℕ

-- DEFAULT_MIN_FREE_BYTES and DEFAULT_MIN_FREE_PERCENT
abbrev pub default_thresholds : Thresholds
default_thresholds = record { min_free_bytes = 1024 * 1024 * 1024; min_free_percent = 5 }

-- `free_pct < effective_min_pct`, where a volume of no size has 0 percent free
abbrev pub lacks_percent : Thresholds → Usage → Bool
lacks_percent t u =
    if u.total == 0
    then ltb 0 t.min_free_percent
    else ltb (u.free * 100) (t.min_free_percent * u.total)

-- What one target lacks; the free bytes that are reported with it.
abbrev pub lack_of : Thresholds → Option Usage → Option ℕ
lack_of t none = some 0
lack_of t (some u) =
    if ltb u.free t.min_free_bytes
    then some u.free
    else if lacks_percent t u
    then some u.free
    else none

-- The free bytes of the first target under pressure, or `none`.
abbrev pub or_next : Option ℕ → Option ℕ → Option ℕ
or_next none rest = rest
or_next (some free) rest = some free

pub check_disk_pressure : Thresholds → List (Option Usage) → Option ℕ
check_disk_pressure t [] = none
check_disk_pressure t (target ∷ targets) =
    or_next (lack_of t target) (check_disk_pressure t targets)

-- What is done under pressure. `message` stands for the text with the free megabytes, and each step reads the
-- local clock once, as one reading here.
pub engage_pause : (message : ℕ → String) (fresh fresh_item : String) (now utc free : ℕ) → Db → Db
engage_pause message fresh fresh_item now utc free db =
    log_event (event none none "disk_pressure_guard_triggered" "ERROR" "disk_guard") now (
      enqueue_notification "system_failure" (message free) "critical" none none none
        (some "critical") fresh fresh_item now (set_runtime_pause true none now utc db).0)

abbrev pub enforce_status :
    (message : ℕ → String) (fresh fresh_item : String) (now utc : ℕ) → Option ℕ → Db → Db × Bool
enforce_status message fresh fresh_item now utc none db = (db, true)
enforce_status message fresh fresh_item now utc (some free) db =
    (engage_pause message fresh fresh_item now utc free db, false)

pub enforce_disk_pressure_guard :
    Thresholds
    → List (Option Usage)
    → (message : ℕ → String) (fresh fresh_item : String) (now utc : ℕ) → Db
    → Db × Bool
enforce_disk_pressure_guard t targets message fresh fresh_item now utc db =
    enforce_status message fresh fresh_item now utc (check_disk_pressure t targets) db
