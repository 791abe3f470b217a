-- ===== src/Queue/Takeover/Exclusion.antt =====
-- The takeover lease belongs to one owner at a time.
use job_applier.Base.{
  not, ◌≢◌, eq_iff, eq_refl, pos, negsuc, ℕ, ◌+◌, ◌≡◌, ◌⊎◌, ◌≤◌, ◌<◌, refl, ◌∙◌, ap, ◌&&◌, Bool,
  true, false, String, Option, some, none, arith, Bool-cases, Option-cases, inl, inr, str_eq,
  non_empty, filled, after, is_text, is_some,
}
use job_applier.Queue.Db.{Db, Result, ok, raised, value_error}
use job_applier.Queue.Events.{EventArgs, event, record_event}
use job_applier.Queue.Events.Frame.{record_event-Same}
use job_applier.Queue.Control.{
  takeover_owner_matches, is_wrong_owner, set_runtime_pause, set_pending_verification_code,
}
use job_applier.Queue.Control.Moves.{
  set_runtime_pause-wrong_owner, set_pending_verification_code-wrong_owner,
}
use job_applier.Queue.Takeover.{
  LeaseArg, Reply, int, bool, other, success, conflict, not_owner, lease_seconds?, held_by_other,
  claim_for, take_lease, claim_manual_takeover, renew_for, renew_manual_takeover,
  is_takeover_active, release_manual_takeover, is_other_owner,
}

-- The lease as it is stored: automation is paused, and the owner has it until `expires`.
pub record LeaseOf (owner : String) (expires : ℕ) (db : Db) : Type 0 where
  pub paused : db.control.is_paused ≡ true
  pub owned : db.control.manual_takeover_owner ≡ some owner
  pub until : db.control.manual_takeover_expires_at ≡ some expires

lease_seconds?-bounds : (l : LeaseArg) (s : ℕ) → lease_seconds? l ≡ some s → (1 ≤ s) × (s ≤ 300)
lease_seconds?-bounds l s h = ground arith

LeaseOf-logged :
    (owner : String) (expires : ℕ) (e : EventArgs) (now : ℕ) (db : Db)
    → LeaseOf owner expires db
    → LeaseOf owner expires (record_event e now db).0
LeaseOf-logged owner expires e now db l =
    let same = (record_event-Same e now db).control in
    record {
      paused = ap (λ c. c.is_paused) same ∙ l.paused;
      owned = ap (λ c. c.manual_takeover_owner) same ∙ l.owned;
      until = ap (λ c. c.manual_takeover_expires_at) same ∙ l.until;
    }

-- A length that the lease may have.
abbrev pub IsLength : LeaseArg → Type 0
IsLength l = (s : ℕ) × (l ≡ int (pos s)) × (1 ≤ s) × (s ≤ 300)

length-lease_seconds? : (l : LeaseArg) (length : IsLength l) → lease_seconds? l ≡ some (length.0)
length-lease_seconds? l (s, e, low, high) = rw e (ground arith)

lease_seconds?-int : (l : LeaseArg) (s : ℕ) → lease_seconds? l ≡ some s → l ≡ int (pos s)
lease_seconds?-int (int (pos n)) s h = ap (λ (k : ℕ). int (pos k)) (ground arith)
lease_seconds?-int (int (negsuc n)) s h = cc h
lease_seconds?-int (bool b) s h = cc h
lease_seconds?-int other s h = cc h

-- Another owner, whose name is not empty, has the takeover until a time that is still to come.
pub record IsForeign (owner another : String) (until utc : ℕ) (db : Db) : Type 0 where
  pub held : db.control.manual_takeover_owner ≡ some another
  pub named : another ≢ ""
  pub differs : another ≢ owner
  pub expires : db.control.manual_takeover_expires_at ≡ some until
  pub live : utc < until

filled-cases : (o : Option String) → filled o ≡ true → (t : String) × (o ≡ some t) × (t ≢ "")
filled-cases none h = cc h
filled-cases (some t) h = (t, refl, λ e. cc (rw e at h))

both : (a b c : Bool) → ((a && b) && not c) ≡ true → (a ≡ true) × (b ≡ true) × (c ≡ false)
both a b c h = (ground arith, ground arith, ground arith)

after-cases : (o : Option ℕ) (n : ℕ) → after o n ≡ true → (t : ℕ) × (o ≡ some t) × (n < t)
after-cases none n h = cc h
after-cases (some t) n h = (t, refl, ground arith)

neq-str_eq : (a b : String) → a ≢ b → str_eq a b ≡ false
neq-str_eq a b h = elim (Bool-cases (str_eq a b)) [
  | inl e ↦ absurd (h ((eq_iff a b).0 e))
  | inr e ↦ e
]

str_eq-neq : (a b : String) → str_eq a b ≡ false → a ≢ b
str_eq-neq a b h e = cc (rw (e, eq_refl b) at h)

module _ (owner : String) (now utc : ℕ) (db : Db) where
  held_by_other-IsForeign :
      held_by_other owner utc db ≡ true
      → (another : String) × (until : ℕ) × IsForeign owner another until utc db
  held_by_other-IsForeign h =
      let (is_held, is_live, is_other) =
        both (filled db.control.manual_takeover_owner)
          (after db.control.manual_takeover_expires_at utc)
          (is_text db.control.manual_takeover_owner owner) h in
      let (another, held, named) = filled-cases db.control.manual_takeover_owner is_held in
      let (until, expires, live) = after-cases db.control.manual_takeover_expires_at utc is_live in
      (
        another,
        until,
        record {
          held = held;
          named = named;
          differs = str_eq-neq another owner (rw held at is_other);
          expires = expires;
          live = live;
        },
      )

  IsForeign-held_by_other :
      {another : String} {until : ℕ}
      → IsForeign owner another until utc db
      → held_by_other owner utc db ≡ true
  IsForeign-held_by_other {another} {until} f =
      rw (f.held, f.expires, neq-str_eq another "" f.named, neq-str_eq another owner f.differs)
        (ground (arith, f.live))

  same_conflict :
      {another : String} {until : ℕ}
      → IsForeign owner another until utc db
      → ok (conflict db.control.manual_takeover_owner db.control.manual_takeover_expires_at)
        ≡ ok (conflict (some another) (some until))
  same_conflict f = rw (f.held, f.expires)

  claim_for-outcome :
      (s : ℕ)
      → ((held_by_other owner utc db ≡ true)
          × (claim_for owner (some s) now utc db ≡ (
            db,
            ok (conflict db.control.manual_takeover_owner db.control.manual_takeover_expires_at),
          )))
        ⊎ ((held_by_other owner utc db ≡ false)
            × ((claim_for owner (some s) now utc db).1 ≡ ok (success (some (utc + s))))
            × LeaseOf owner (utc + s) (claim_for owner (some s) now utc db).0)
  unfolding claim_for
  claim_for-outcome s = elim (Bool-cases (held_by_other owner utc db)) [
    | inl e ↦ inl (e, rw e)
    | inr e ↦ inr (
      e,
      rw e,
      simp e (
          LeaseOf-logged owner (utc + s)
            (event none none "manual_takeover_claimed" "INFO" "takeover") now
            (take_lease owner s utc db) (record { paused = refl; owned = refl; until = refl })),
    )
  ]

  -- A claim of the takeover: a length that is no whole number from 1 to 300 raises ValueError and changes
  -- nothing; while another owner has a lease that has not run out, the answer is the conflict with it
  -- and nothing changes; otherwise automation is paused and the lease is the owner's for that length.
  pub claim_manual_takeover-outcome :
      (l : LeaseArg)
      → ((¬ IsLength l) × (claim_manual_takeover owner l now utc db ≡ (db, raised value_error)))
        ⊎ ((s : ℕ) × (l ≡ int (pos s))
            × (1 ≤ s)
            × (s ≤ 300)
            × (((another : String) × (until : ℕ) × IsForeign owner another until utc db
                  × (claim_manual_takeover owner l now utc db
                      ≡ (db, ok (conflict (some another) (some until)))))
                ⊎ (((another : String) (until : ℕ) → ¬ IsForeign owner another until utc db)
                    × ((claim_manual_takeover owner l now utc db).1 ≡ ok (success (some (utc + s))))
                    × LeaseOf owner (utc + s) (claim_manual_takeover owner l now utc db).0)))
  unfolding claim_manual_takeover
  claim_manual_takeover-outcome l = elim (Option-cases (lease_seconds? l)) [
    | inl e ↦ inl (λ length. cc (e, length-lease_seconds? l length), rw e)
    | inr (s, e) ↦
        let (low, high) = lease_seconds?-bounds l s e in
        inr (
          s,
          lease_seconds?-int l s e,
          low,
          high,
          elim (claim_for-outcome s) [
            | inl (held, answer) ↦
                let (another, until, foreign) = held_by_other-IsForeign held in
                inl (
                  another,
                  until,
                  foreign,
                  rw e (answer ∙ ap (λ (r : Result Reply). (db, r)) (same_conflict foreign)),
                )
            | inr (free, answer, lease) ↦ inr (
              λ another until foreign. cc (rw (IsForeign-held_by_other foreign) at free),
              rw e answer,
              rw e lease,
            )
          ],
        )
  ]

claim-held :
    (owner : String) (o : Option ℕ) (now utc : ℕ) (db : Db)
    → held_by_other owner utc db ≡ true
    → (claim_for owner o now utc db).0 ≡ db
unfolding claim_for
claim-held owner none now utc db e = refl
claim-held owner (some s) now utc db e = rw e

renew-foreign :
    (owner : String) (o : Option ℕ) (now utc : ℕ) (db : Db)
    → takeover_owner_matches owner utc db ≡ false
    → (renew_for owner o now utc db).0 ≡ db
unfolding renew_for
renew-foreign owner none now utc db e = refl
renew-foreign owner (some s) now utc db e = rw e

release-foreign :
    (owner : String) (now : ℕ) (db : Db)
    → is_other_owner (some owner) db.control.manual_takeover_owner ≡ true
    → release_manual_takeover (some owner) false now db ≡ (db, not_owner)
unfolding release_manual_takeover
release-foreign owner now db e = rw e

-- While a lease has not run out, another owner changes nothing: not by a claim, a heartbeat, a release
-- without force, a change of the pause flag, or a verification code.
-- Both owners have names that are not empty, and automation is paused as the claim left it.
pub LeaseOf-exclusive :
    (owner : String) (expires : ℕ) (db : Db)
    → LeaseOf owner expires db
    → non_empty owner ≡ true
    → (intruder : String) → non_empty intruder ≡ true
    → str_eq owner intruder ≡ false
    → (l : LeaseArg) (is_paused : Bool) (code : String) (now utc : ℕ) → utc < expires
    → ((claim_manual_takeover intruder l now utc db).0 ≡ db)
      × ((renew_manual_takeover intruder l now utc db).0 ≡ db)
      × (release_manual_takeover (some intruder) false now db ≡ (db, not_owner))
      × (set_runtime_pause is_paused (some intruder) now utc db ≡ (db, false))
      × (set_pending_verification_code code (some intruder) now utc db ≡ (db, false))
unfolding claim_manual_takeover renew_manual_takeover
LeaseOf-exclusive owner expires db lease named intruder named' differs l is_paused code now utc
      live =
    let held : held_by_other intruder utc db ≡ true =
      rw (lease.owned, lease.until, named, differs) (ground arith) in
    let foreign : takeover_owner_matches intruder utc db ≡ false = rw (lease.owned, differs) in
    let wrong : is_wrong_owner (some intruder) utc db ≡ true = rw foreign in
    (
      claim-held intruder (lease_seconds? l) now utc db held,
      renew-foreign intruder (lease_seconds? l) now utc db foreign,
      release-foreign intruder now db (rw (lease.owned, named, named', differs)),
      set_runtime_pause-wrong_owner is_paused (some intruder) now utc db wrong,
      set_pending_verification_code-wrong_owner code (some intruder) now utc db wrong,
    )

pub is_takeover_active-flag :
    (utc : ℕ) (db : Db)
    → (is_takeover_active utc db).0
      ≡ (filled db.control.manual_takeover_owner && after db.control.manual_takeover_expires_at utc)
unfolding is_takeover_active
is_takeover_active-flag utc db = ground arith

-- The owner that is reported is the owner of the row.
pub is_takeover_active-other :
    (utc : ℕ) (db : Db) (w : String)
    → is_text db.control.manual_takeover_owner w ≡ false
    → is_text (is_takeover_active utc db).1 w ≡ false
unfolding is_takeover_active
is_takeover_active-other utc db w h =
    elim (Bool-cases
      (filled db.control.manual_takeover_owner && is_some db.control.manual_takeover_expires_at)) [
        | inl e ↦ simp e h
        | inr e ↦ simp e
      ]
