-- ===== src/Queue/Events/Unnamed.antt =====
-- An event that names no attempt leaves the attempts as they are.
use job_applier.Base.{
  ◌+◌, ◌++◌, ◌∷◌, [], ◌&&◌, ◌==◌, if◌then◌else◌, ℕ, ◌≡◌, refl, Option, none, some, find_where,
  find_by, or_else, filled, Bool-cases, inl, inr,
}
use job_applier.Queue.Db.{Db, AutomationJob, Event}
use job_applier.Queue.Events.{
  EventArgs, record_event, append_unless, insert_event, project_event, project_onto, clashes,
  event_row, is_repeat,
}

module _ (e : EventArgs) (now : ℕ) (unnamed : e.attempt_id ≡ none) where
  project_onto-attempts :
      (id : ℕ) (j : Option AutomationJob) (db : Db)
      → (project_onto e id now j db).attempts ≡ db.attempts
  unfolding project_onto
  project_onto-attempts id none db = refl
  project_onto-attempts id (some j) db = rw unnamed

  project_event-attempts : (id : ℕ) (db : Db) → (project_event e id now db).attempts ≡ db.attempts
  unfolding project_event
  project_event-attempts id db = elim (Bool-cases (filled e.job_id)) [
    | inl f ↦ simp f (
        project_onto-attempts id
          (find_by (λ (j : AutomationJob). j.id) (or_else e.job_id "") db.jobs) db)
    | inr f ↦ simp f refl
  ]

  insert_event-attempts :
      (c : Option Event) (db : Db) → (insert_event e now c db).0.attempts ≡ db.attempts
  unfolding insert_event
  insert_event-attempts none db = project_event-attempts db.next_event_id (record db {
    events = db.events ++ event_row e db.next_event_id now ∷ [];
    next_event_id = db.next_event_id + 1;
  })
  insert_event-attempts (some c) db =
      project_event-attempts
        (if e.stale_rowid == 0 && (filled e.attempt_id && filled e.event_key)
          then c.id
          else e.stale_rowid)
        db

  append_unless-attempts :
      (r : Option Event) (db : Db) → (append_unless e now r db).0.attempts ≡ db.attempts
  unfolding append_unless
  append_unless-attempts none db = insert_event-attempts (find_where (clashes e) db.events) db
  append_unless-attempts (some r) db = refl

  pub record_event-attempts : (db : Db) → (record_event e now db).0.attempts ≡ db.attempts
  unfolding record_event
  record_event-attempts db = append_unless-attempts (find_where (is_repeat e) db.events) db
