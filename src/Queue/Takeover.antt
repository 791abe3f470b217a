-- ===== src/Queue/Takeover.antt =====
-- The manual takeover lease (src/job_applier/automation/queue.py): `is_takeover_active`,
-- `claim_manual_takeover`, `renew_manual_takeover` and `release_manual_takeover`.
pub mod Moves
pub mod Exclusion
use job_applier.Base.{
  ℕ, ◌+◌, String, Bool, true, false, not, ◌&&◌, Option, none, some, leb, is_text, is_some, filled,
  after, if◌then◌else◌, ℤ, pos, negsuc,
}
use job_applier.Queue.Db.{Db, Result, ok, raised, value_error}
use job_applier.Queue.Events.{event, log_event}
use job_applier.Queue.Control.{set_control, takeover_owner_matches}

-- A value of Python that is given for the length of the lease.
pub data LeaseArg : Type 0 where
  int : ℤ → LeaseArg
  bool : Bool → LeaseArg
  other : LeaseArg

pub data Reason : Type 0 where
  missing owner_mismatch expired : Reason

-- The answers of the three operations.
pub data Reply : Type 0 where
  success : (expires_at : Option ℕ) → Reply
  conflict : (owner : Option String) (expires_at : Option ℕ) → Reply
  rejected : Reason → Reply
  not_owner : Reply

abbrev pub min_lease : ℕ
min_lease = 1

abbrev pub max_lease : ℕ
max_lease = 300

-- The seconds of a lease that passes the check, in whole numbers from 1 to 300.
abbrev pub lease_seconds? : LeaseArg → Option ℕ
lease_seconds? (int (pos n)) = if leb min_lease n && leb n max_lease then some n else none
lease_seconds? (int (negsuc n)) = none
lease_seconds? (bool b) = none
lease_seconds? other = none

-- The answer, the owner and the expiry of the lease.
pub is_takeover_active : (utc : ℕ) → Db → Bool × Option String × Option ℕ
is_takeover_active utc db =
    if filled db.control.manual_takeover_owner && is_some db.control.manual_takeover_expires_at
    then (
      after db.control.manual_takeover_expires_at utc,
      db.control.manual_takeover_owner,
      db.control.manual_takeover_expires_at,
    )
    else (false, none, none)

-- Another owner's lease that has not run out.
abbrev pub held_by_other : String → ℕ → Db → Bool
held_by_other owner utc db =
    (filled db.control.manual_takeover_owner && after db.control.manual_takeover_expires_at utc)
    && not (is_text db.control.manual_takeover_owner owner)

take_lease : String → ℕ → ℕ → Db → Db
take_lease owner seconds utc db =
    set_control
      (record (db.control) {
        is_paused = true;
        manual_takeover_owner = some owner;
        manual_takeover_expires_at = some (utc + seconds);
        updated_at = utc;
      })
      db

claim_for : String → Option ℕ → ℕ → ℕ → Db → Db × Result Reply
unfolding take_lease
claim_for owner none now utc db = (db, raised value_error)
claim_for owner (some seconds) now utc db =
    if held_by_other owner utc db
    then (db, ok (conflict db.control.manual_takeover_owner db.control.manual_takeover_expires_at))
    else (
      log_event (event none none "manual_takeover_claimed" "INFO" "takeover") now
          (take_lease owner seconds utc db),
      ok (success (some (utc + seconds))),
    )

unfoldable pub claim_manual_takeover :
    (owner : String) (lease_seconds : LeaseArg) (now utc : ℕ) → Db → Db × Result Reply
unfolding claim_for
claim_manual_takeover owner lease_seconds now utc db =
    claim_for owner (lease_seconds? lease_seconds) now utc db

extend_lease : ℕ → ℕ → Db → Db
extend_lease seconds utc db =
    set_control
      (record (db.control) { manual_takeover_expires_at = some (utc + seconds); updated_at = utc })
      db

abbrev why_rejected : String → Db → Reason
why_rejected owner db =
    if filled db.control.manual_takeover_owner
    then if is_text db.control.manual_takeover_owner owner then expired else owner_mismatch
    else missing

renew_for : String → Option ℕ → ℕ → ℕ → Db → Db × Result Reply
unfolding extend_lease
renew_for owner none now utc db = (db, raised value_error)
renew_for owner (some seconds) now utc db =
    if takeover_owner_matches owner utc db
    then (
      log_event (event none none "manual_takeover_renewed" "INFO" "takeover") now
          (extend_lease seconds utc db),
      ok (success (some (utc + seconds))),
    )
    else (db, ok (rejected (why_rejected owner db)))

pub renew_manual_takeover :
    (owner : String) (lease_seconds : LeaseArg) (now utc : ℕ) → Db → Db × Result Reply
unfolding renew_for
renew_manual_takeover owner lease_seconds now utc db =
    renew_for owner (lease_seconds? lease_seconds) now utc db

-- `owner and current_owner and current_owner != owner`
abbrev pub is_other_owner : Option String → Option String → Bool
is_other_owner none current = false
is_other_owner (some owner) current =
    filled (some owner) && (filled current && not (is_text current owner))

drop_lease : ℕ → Db → Db
drop_lease now db =
    set_control
      (record (db.control) {
        manual_takeover_owner = none;
        manual_takeover_expires_at = none;
        updated_at = now;
      })
      db

pub release_manual_takeover : (owner : Option String) (force : Bool) (now : ℕ) → Db → Db × Reply
unfolding drop_lease
release_manual_takeover owner force now db =
    if not force && is_other_owner owner db.control.manual_takeover_owner
    then (db, not_owner)
    else (
      log_event (event none none "manual_takeover_released" "INFO" "takeover") now
          (drop_lease now db),
      success none,
    )
