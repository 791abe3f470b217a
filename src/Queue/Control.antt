-- ===== src/Queue/Control.antt =====
-- The runtime controls (src/job_applier/automation/queue.py): pause, stop, the verification code, and
-- the owner test of the takeover lease. `utc` is the UTC clock that the takeover fields use, and `now`
-- the local clock of the other fields.
pub mod Moves
use job_applier.Base.{
  ℕ, String, Bool, true, false, not, ◌&&◌, Option, none, some, is_text, filled, after,
  if◌then◌else◌,
}
use job_applier.Queue.Db.{Db, RuntimeControl}

-- `takeover_owner_matches`
abbrev pub takeover_owner_matches : (owner : String) (utc : ℕ) → Db → Bool
takeover_owner_matches owner utc db =
    is_text db.control.manual_takeover_owner owner
    && after db.control.manual_takeover_expires_at utc

-- `expected_owner is not None and not takeover_owner_matches(expected_owner)`
abbrev pub is_wrong_owner : Option String → ℕ → Db → Bool
is_wrong_owner none utc db = false
is_wrong_owner (some owner) utc db = not (takeover_owner_matches owner utc db)

abbrev pub set_control : RuntimeControl → Db → Db
set_control c db = record db { control = c }

pub set_runtime_pause :
    (is_paused : Bool) (expected_owner : Option String) (now utc : ℕ) → Db → Db × Bool
set_runtime_pause is_paused expected_owner now utc db =
    if is_wrong_owner expected_owner utc db
    then (db, false)
    else (set_control (record (db.control) { is_paused = is_paused; updated_at = now }) db, true)

unfoldable pub set_runtime_stop : (is_stopped : Bool) (now : ℕ) → Db → Db
set_runtime_stop is_stopped now db =
    set_control (record (db.control) { is_stopped = is_stopped; updated_at = now }) db

pub set_pending_verification_code :
    (code : String) (expected_owner : Option String) (now utc : ℕ) → Db → Db × Bool
set_pending_verification_code code expected_owner now utc db =
    if is_wrong_owner expected_owner utc db then (db, false) else (
      set_control
          (record (db.control) {
            pending_verification_code = some code;
            is_waiting_for_code = false;
            updated_at = now;
          })
          db,
      true,
    )

pub consume_pending_verification_code : (now : ℕ) → Db → Db × Option String
consume_pending_verification_code now db =
    if filled db.control.pending_verification_code
    then (
      set_control (record (db.control) { pending_verification_code = none; updated_at = now }) db,
      db.control.pending_verification_code,
    )
    else (db, none)
