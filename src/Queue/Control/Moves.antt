-- ===== src/Queue/Control/Moves.antt =====
-- The runtime controls move no job.
use job_applier.Base.{ℕ, ◌≡◌, refl, Bool, true, false, String, Option, none, filled}
use job_applier.Queue.Db.{Db}
use job_applier.Queue.Lifecycle.{Phase, Acts}
use job_applier.Queue.Lifecycle.Laws.{Acts-refl, Acts-same, Acts-if}
use job_applier.Queue.Control.{
  is_wrong_owner, set_runtime_pause, set_runtime_stop, set_pending_verification_code,
  consume_pending_verification_code,
}

module _ (R : Phase → Phase → Type 0) (db : Db) where
  pub set_runtime_pause-Acts :
      (is_paused : Bool) (expected_owner : Option String) (now utc : ℕ)
      → Acts R db (set_runtime_pause is_paused expected_owner now utc db).0
  unfolding set_runtime_pause
  set_runtime_pause-Acts is_paused expected_owner now utc =
      Acts-if (is_wrong_owner expected_owner utc db) _ _ (Acts-refl db) (Acts-same refl)

  pub set_runtime_stop-Acts :
      (is_stopped : Bool) (now : ℕ) → Acts R db (set_runtime_stop is_stopped now db)
  unfolding set_runtime_stop
  set_runtime_stop-Acts is_stopped now = Acts-same refl

  pub set_pending_verification_code-Acts :
      (code : String) (expected_owner : Option String) (now utc : ℕ)
      → Acts R db (set_pending_verification_code code expected_owner now utc db).0
  unfolding set_pending_verification_code
  set_pending_verification_code-Acts code expected_owner now utc =
      Acts-if (is_wrong_owner expected_owner utc db) _ _ (Acts-refl db) (Acts-same refl)

  pub consume_pending_verification_code-Acts :
      (now : ℕ) → Acts R db (consume_pending_verification_code now db).0
  unfolding consume_pending_verification_code
  consume_pending_verification_code-Acts now =
      Acts-if (filled db.control.pending_verification_code) _ _ (Acts-same refl) (Acts-refl db)

-- A pause with no owner named is not refused.
pub set_runtime_pause-sets :
    (now utc : ℕ) (db : Db)
    → ((set_runtime_pause true none now utc db).0.control.is_paused ≡ true)
      × ((set_runtime_pause true none now utc db).0.jobs ≡ db.jobs)
unfolding set_runtime_pause
set_runtime_pause-sets now utc db = (refl, refl)

-- A caller that is not the owner of the takeover changes nothing.
pub set_runtime_pause-wrong_owner :
    (is_paused : Bool) (o : Option String) (now utc : ℕ) (db : Db)
    → is_wrong_owner o utc db ≡ true
    → set_runtime_pause is_paused o now utc db ≡ (db, false)
unfolding set_runtime_pause
set_runtime_pause-wrong_owner is_paused o now utc db e = rw e

pub set_pending_verification_code-wrong_owner :
    (code : String) (o : Option String) (now utc : ℕ) (db : Db)
    → is_wrong_owner o utc db ≡ true
    → set_pending_verification_code code o now utc db ≡ (db, false)
unfolding set_pending_verification_code
set_pending_verification_code-wrong_owner code o now utc db e = rw e
