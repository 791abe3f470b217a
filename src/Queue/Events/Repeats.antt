-- ===== src/Queue/Events/Repeats.antt =====
-- An event with a key is logged once for a job.
use job_applier.Base.{
  ℕ, ◌+◌, ◌≡◌, refl, sym, ◌∙◌, ap, Bool, true, String, Option, none, some, List, [], ◌∷◌, ◌++◌,
  find_where, find_by, or_else, filled, Bool-cases, Option-cases, inl, inr, is_some, eq_refl,
}
use job_applier.Queue.Db.{Db, AutomationJob, Event}
use job_applier.Queue.Events.{
  EventArgs, record_event, event_row, project_event, project_onto, clashes, is_repeat, same_text,
}

find_where-append_new :
    (p : Event → Bool) (xs : List Event) (y : Event)
    → find_where p xs ≡ none
    → p y ≡ true
    → find_where p (xs ++ y ∷ []) ≡ some y
find_where-append_new p [] y e h = rw h
find_where-append_new p (x ∷ xs) y e h = elim (Bool-cases (p x)) [
  | inl fits ↦ cc (rw fits at e)
  | inr fails ↦ rw fails (find_where-append_new p xs y (rw fails at e) h)
]

same_text_refl : (o : Option String) → same_text o o ≡ true
same_text_refl none = refl
same_text_refl (some s) = eq_refl s

module _ (e : EventArgs) where
  project_onto-events :
      (id now : ℕ) (j : Option AutomationJob) (db : Db)
      → (project_onto e id now j db).events ≡ db.events
  unfolding project_onto
  project_onto-events id now none db = refl
  project_onto-events id now (some j) db = refl

  project_event-events : (id now : ℕ) (db : Db) → (project_event e id now db).events ≡ db.events
  unfolding project_event
  project_event-events id now db = elim (Bool-cases (filled e.job_id)) [
    | inl h ↦ simp h (
        project_onto-events id now
          (find_by (λ (j : AutomationJob). j.id) (or_else e.job_id "") db.jobs) db)
    | inr h ↦ simp h
  ]

  row_is_repeat :
      (id now : ℕ) → is_some e.event_key ≡ true → is_repeat e (event_row e id now) ≡ true
  unfolding event_row
  row_is_repeat id now h = rw (same_text_refl e.job_id, same_text_refl e.event_key, h)

  found_again :
      (now later : ℕ) (db : Db) (r : Event)
      → find_where (is_repeat e) db.events ≡ some r
      → record_event e later db ≡ (db, r.id)
  unfolding record_event
  found_again now later db r h = rw h

  inserted :
      (now : ℕ) (db : Db)
      → is_some e.event_key ≡ true
      → find_where (is_repeat e) db.events ≡ none
      → find_where (clashes e) db.events ≡ none
      → (find_where (is_repeat e) (record_event e now db).0.events
          ≡ some (event_row e db.next_event_id now))
        × ((record_event e now db).1 ≡ db.next_event_id)
  unfolding record_event
  inserted now db key fresh free =
      simp (fresh, free)
        (
          ap (find_where (is_repeat e)) (
                project_event-events db.next_event_id now (record db {
                  events = db.events ++ event_row e db.next_event_id now ∷ [];
                  next_event_id = db.next_event_id + 1;
                }))
              ∙ find_where-append_new (is_repeat e) db.events (event_row e db.next_event_id now)
                  fresh (row_is_repeat db.next_event_id now key),
          refl,
        )

  -- An event with a key, of which no other row has the attempt and the key, is logged once: the same event
  -- recorded again, at whatever time, answers with the id of the first and changes nothing, neither the log nor
  -- the projections onto the status and the attempt.
  pub record_event-once :
      (now later : ℕ) (db : Db)
      → is_some e.event_key ≡ true
      → find_where (clashes e) db.events ≡ none
      → record_event e later (record_event e now db).0 ≡ record_event e now db
  unfolding event_row
  record_event-once now later db key free =
      elim (Option-cases (find_where (is_repeat e) db.events)) [
        | inl fresh ↦
            let (again, id) = inserted now db key fresh free in
            found_again now later (record_event e now db).0 (event_row e db.next_event_id now) again
            ∙ ap (λ (k : ℕ). ((record_event e now db).0, k)) (sym id)
        | inr (r, h) ↦ rw (found_again now now db r h) (found_again now later db r h)
      ]
