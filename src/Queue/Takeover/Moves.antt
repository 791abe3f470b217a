-- ===== src/Queue/Takeover/Moves.antt =====
-- The takeover lease moves no job.
use job_applier.Base.{ℕ, ◌&&◌, not, Bool, String, Option, none, some}
use job_applier.Queue.Db.{Db}
use job_applier.Queue.Events.Frame.{record_event-Same}
use job_applier.Queue.Lifecycle.{Phase, Acts}
use job_applier.Queue.Lifecycle.Laws.{Acts-refl, Acts-same, Acts-if}
use job_applier.Queue.Control.{takeover_owner_matches}
use job_applier.Queue.Takeover.{
  LeaseArg, lease_seconds?, held_by_other, claim_for, renew_for, is_other_owner,
  claim_manual_takeover, renew_manual_takeover, release_manual_takeover,
}

module _ (R : Phase → Phase → Type 0) (now : ℕ) (db : Db) where
  claim_for-Acts :
      (owner : String) (s : Option ℕ) (utc : ℕ) → Acts R db (claim_for owner s now utc db).0
  unfolding claim_for
  claim_for-Acts owner none utc = Acts-refl db
  claim_for-Acts owner (some s) utc =
      Acts-if (held_by_other owner utc db) _ _ (Acts-refl db)
        (Acts-same (record_event-Same _ now _).jobs)

  pub claim_manual_takeover-Acts :
      (owner : String) (lease : LeaseArg) (utc : ℕ)
      → Acts R db (claim_manual_takeover owner lease now utc db).0
  unfolding claim_manual_takeover
  claim_manual_takeover-Acts owner lease utc = claim_for-Acts owner (lease_seconds? lease) utc

  renew_for-Acts :
      (owner : String) (s : Option ℕ) (utc : ℕ) → Acts R db (renew_for owner s now utc db).0
  unfolding renew_for
  renew_for-Acts owner none utc = Acts-refl db
  renew_for-Acts owner (some s) utc =
      Acts-if (takeover_owner_matches owner utc db) _ _ (Acts-same (record_event-Same _ now _).jobs)
        (Acts-refl db)

  pub renew_manual_takeover-Acts :
      (owner : String) (lease : LeaseArg) (utc : ℕ)
      → Acts R db (renew_manual_takeover owner lease now utc db).0
  unfolding renew_manual_takeover
  renew_manual_takeover-Acts owner lease utc = renew_for-Acts owner (lease_seconds? lease) utc

  pub release_manual_takeover-Acts :
      (owner : Option String) (force : Bool)
      → Acts R db (release_manual_takeover owner force now db).0
  unfolding release_manual_takeover
  release_manual_takeover-Acts owner force =
      Acts-if (not force && is_other_owner owner db.control.manual_takeover_owner) _ _
        (Acts-refl db) (Acts-same (record_event-Same _ now _).jobs)
