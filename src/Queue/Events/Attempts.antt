-- ===== src/Queue/Events/Attempts.antt =====
-- What an event leaves of the attempts: each row, and its submit intent.
use job_applier.Base.{
  ℕ, ◌≡◌, refl, ◌∙◌, Bool, true, false, String, Option, none, some, find_where, find_by, or_else,
  ◌++◌, ◌∷◌, [], ◌+◌, IsKeyed, update_where, update_where-IsKeyed, find_by-update_where, is_text,
  filled, Bool-cases, inl, inr, if◌then◌else◌,
}
use job_applier.Queue.Db.{Db, AutomationJob, ApplicationAttempt, Event, get_attempt, attempt_id_of}
use job_applier.Queue.Events.{
  EventArgs, record_event, append_unless, insert_event, event_row, project_event, project_onto,
  clashes, is_repeat, stamp_attempt,
}

-- Every attempt stays, with its submit intent, and the ids stay unique.
pub record KeepsIntents (a b : Db) : Type 0 where
  pub at :
      (id : String) (x : ApplicationAttempt)
      → get_attempt id a ≡ some x
      → (y : ApplicationAttempt) × (get_attempt id b ≡ some y)
        × (y.submit_intent_at ≡ x.submit_intent_at)
  pub keyed : IsKeyed attempt_id_of a.attempts → IsKeyed attempt_id_of b.attempts

pub KeepsIntents-same : {a b : Db} → b.attempts ≡ a.attempts → KeepsIntents a b
KeepsIntents-same e = record { at = λ id x h. (x, rw e h, refl); keyed = λ k. rw e k }

pub KeepsIntents-trans : {a b c : Db} → KeepsIntents a b → KeepsIntents b c → KeepsIntents a c
KeepsIntents-trans f g = record {
  at =
      λ id x h. let (y, hy, ey) = f.at id x h in let (z, hz, ez) = g.at id y hy in (z, hz, ez ∙ ey);
  keyed = λ k. g.keyed (f.keyed k);
}

pub KeepsIntents-if :
    {a x y : Db} (t : Bool)
    → KeepsIntents a x
    → KeepsIntents a y
    → KeepsIntents a (if t then x else y)
KeepsIntents-if true h k = h
KeepsIntents-if false h k = k

pub KeepsIntents-update :
    {a b : Db} (p : ApplicationAttempt → Bool) (f : ApplicationAttempt → ApplicationAttempt)
    → b.attempts ≡ update_where p f a.attempts
    → ((x : ApplicationAttempt) → attempt_id_of (f x) ≡ attempt_id_of x)
    → ((x : ApplicationAttempt) → (f x).submit_intent_at ≡ x.submit_intent_at)
    → KeepsIntents a b
KeepsIntents-update {a} p f e keeps intents = record {
  at = λ id x h. elim (Bool-cases (p x)) [
    | inl yes' ↦ (
      f x,
      rw (e, find_by-update_where attempt_id_of p f keeps id a.attempts, h, yes'),
      intents x,
    )
    | inr no' ↦
        (x, rw (e, find_by-update_where attempt_id_of p f keeps id a.attempts, h, no'), refl)
  ];
  keyed = λ k. rw e (update_where-IsKeyed attempt_id_of p f keeps a.attempts k);
}

module _ (e : EventArgs) (now : ℕ) where
  project_onto-KeepsIntents :
      (id : ℕ) (j : Option AutomationJob) (db : Db) → KeepsIntents db (project_onto e id now j db)
  unfolding project_onto
  project_onto-KeepsIntents id none db = KeepsIntents-same refl
  project_onto-KeepsIntents id (some j) db = elim (Bool-cases (filled e.attempt_id)) [
    | inl named ↦
        KeepsIntents-update (λ (a : ApplicationAttempt). is_text e.attempt_id a.id)
          (stamp_attempt e id) (rw named) (λ x. refl) (λ x. refl)
    | inr unnamed ↦ KeepsIntents-same (rw unnamed)
  ]

  project_event-KeepsIntents : (id : ℕ) (db : Db) → KeepsIntents db (project_event e id now db)
  unfolding project_event
  project_event-KeepsIntents id db =
      KeepsIntents-if (filled e.job_id)
        (project_onto-KeepsIntents id
          (find_by (λ (j : AutomationJob). j.id) (or_else e.job_id "") db.jobs) db)
        (KeepsIntents-same refl)

  insert_event-KeepsIntents :
      (c : Option Event) (db : Db) → KeepsIntents db (insert_event e now c db).0
  unfolding insert_event
  insert_event-KeepsIntents none db = KeepsIntents-trans (KeepsIntents-same refl) (
      project_event-KeepsIntents db.next_event_id (record db {
        events = db.events ++ event_row e db.next_event_id now ∷ [];
        next_event_id = db.next_event_id + 1;
      }))
  insert_event-KeepsIntents (some c) db = project_event-KeepsIntents _ db

  append_unless-KeepsIntents :
      (r : Option Event) (db : Db) → KeepsIntents db (append_unless e now r db).0
  unfolding append_unless
  append_unless-KeepsIntents none db =
      insert_event-KeepsIntents (find_where (clashes e) db.events) db
  append_unless-KeepsIntents (some r) db = KeepsIntents-same refl

  pub record_event-KeepsIntents : (db : Db) → KeepsIntents db (record_event e now db).0
  unfolding record_event
  record_event-KeepsIntents db = append_unless-KeepsIntents (find_where (is_repeat e) db.events) db
