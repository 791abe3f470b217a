-- ===== src/Queue/Events/Steady.antt =====
-- An event leaves the results of the attempts: their outcomes and the times of their completion.
use job_applier.Base.{
  ℕ, ◌+◌, ◌≡◌, refl, ◌∙◌, ap, Bool, true, false, String, Option, none, some, List, [], ◌∷◌, ◌++◌,
  find_where, find_by, or_else, IsKeyed, update_where, update_where-IsKeyed, is_text, filled,
  Bool-cases, inl, inr, if◌then◌else◌,
}
use job_applier.Queue.Db.{Db, AutomationJob, ApplicationAttempt, Event, attempt_id_of}
use job_applier.Queue.Events.{
  EventArgs, record_event, append_unless, insert_event, event_row, project_event, project_onto,
  clashes, is_repeat, stamp_attempt,
}

-- The results, in the order of the table.
abbrev pub results : List ApplicationAttempt → List (Option String × Option ℕ)
results [] = []
results (a ∷ rest) = (a.outcome, a.completed_at) ∷ results rest

-- The results are the same, and the ids stay unique.
pub record IsSteady (a b : Db) : Type 0 where
  pub same : results b.attempts ≡ results a.attempts
  pub keyed : IsKeyed attempt_id_of a.attempts → IsKeyed attempt_id_of b.attempts

pub IsSteady-same : {a b : Db} → b.attempts ≡ a.attempts → IsSteady a b
IsSteady-same e = record { same = ap results e; keyed = λ k. rw e k }

pub IsSteady-trans : {a b c : Db} → IsSteady a b → IsSteady b c → IsSteady a c
IsSteady-trans f g = record { same = g.same ∙ f.same; keyed = λ k. g.keyed (f.keyed k) }

pub IsSteady-if :
    {a x y : Db} (t : Bool) → IsSteady a x → IsSteady a y → IsSteady a (if t then x else y)
IsSteady-if true h k = h
IsSteady-if false h k = k

results-update_where :
    (p : ApplicationAttempt → Bool) (f : ApplicationAttempt → ApplicationAttempt)
    → ((x : ApplicationAttempt) → (f x).outcome ≡ x.outcome)
    → ((x : ApplicationAttempt) → (f x).completed_at ≡ x.completed_at)
    → (xs : List ApplicationAttempt) → results (update_where p f xs) ≡ results xs
results-update_where p f o c [] = refl
results-update_where p f o c (x ∷ xs) = elim (Bool-cases (p x)) [
  | inl e ↦ rw (e, o x, c x, results-update_where p f o c xs)
  | inr e ↦ rw (e, results-update_where p f o c xs)
]

pub IsSteady-update :
    {a b : Db} (p : ApplicationAttempt → Bool) (f : ApplicationAttempt → ApplicationAttempt)
    → b.attempts ≡ update_where p f a.attempts
    → ((x : ApplicationAttempt) → attempt_id_of (f x) ≡ attempt_id_of x)
    → ((x : ApplicationAttempt) → (f x).outcome ≡ x.outcome)
    → ((x : ApplicationAttempt) → (f x).completed_at ≡ x.completed_at)
    → IsSteady a b
IsSteady-update {a} p f e keeps o c = record {
  same = ap results e ∙ results-update_where p f o c a.attempts;
  keyed = λ k. rw e (update_where-IsKeyed attempt_id_of p f keeps a.attempts k);
}

module _ (e : EventArgs) (now : ℕ) where
  project_onto-IsSteady :
      (id : ℕ) (j : Option AutomationJob) (db : Db) → IsSteady db (project_onto e id now j db)
  unfolding project_onto
  project_onto-IsSteady id none db = IsSteady-same refl
  project_onto-IsSteady id (some j) db = elim (Bool-cases (filled e.attempt_id)) [
    | inl named ↦
        IsSteady-update (λ (a : ApplicationAttempt). is_text e.attempt_id a.id) (stamp_attempt e id)
          (rw named) (λ x. refl) (λ x. refl) (λ x. refl)
    | inr unnamed ↦ IsSteady-same (rw unnamed)
  ]

  project_event-IsSteady : (id : ℕ) (db : Db) → IsSteady db (project_event e id now db)
  unfolding project_event
  project_event-IsSteady id db =
      IsSteady-if (filled e.job_id)
        (project_onto-IsSteady id
          (find_by (λ (j : AutomationJob). j.id) (or_else e.job_id "") db.jobs) db)
        (IsSteady-same refl)

  insert_event-IsSteady : (c : Option Event) (db : Db) → IsSteady db (insert_event e now c db).0
  unfolding insert_event
  insert_event-IsSteady none db = IsSteady-trans (IsSteady-same refl) (
      project_event-IsSteady db.next_event_id (record db {
        events = db.events ++ event_row e db.next_event_id now ∷ [];
        next_event_id = db.next_event_id + 1;
      }))
  insert_event-IsSteady (some c) db = project_event-IsSteady _ db

  append_unless-IsSteady : (r : Option Event) (db : Db) → IsSteady db (append_unless e now r db).0
  unfolding append_unless
  append_unless-IsSteady none db = insert_event-IsSteady (find_where (clashes e) db.events) db
  append_unless-IsSteady (some r) db = IsSteady-same refl

  pub record_event-IsSteady : (db : Db) → IsSteady db (record_event e now db).0
  unfolding record_event
  record_event-IsSteady db = append_unless-IsSteady (find_where (is_repeat e) db.events) db
