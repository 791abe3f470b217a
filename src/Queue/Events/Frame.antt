-- ===== src/Queue/Events/Frame.antt =====
-- What an event leaves alone: all tables but the event log, the projections and the marks of the
-- attempt that it names.
use job_applier.Base.{
  ℕ, ◌≡◌, Option, none, some, arith, find_where, find_by, or_else, ◌++◌, ◌∷◌, [], ◌+◌,
}
use job_applier.Queue.Db.{Db, AutomationJob, Event}
use job_applier.Queue.Events.{
  EventArgs, record_event, append_unless, insert_event, event_row, project_event, project_onto,
  clashes, is_repeat,
}

-- Two databases with the same queue, controls and alerts.
pub record Same (a b : Db) : Type 0 where
  pub jobs : a.jobs ≡ b.jobs
  pub control : a.control ≡ b.control
  pub applications : a.applications ≡ b.applications
  pub notifications : a.notifications ≡ b.notifications
  pub outbox : a.outbox ≡ b.outbox
  pub answers : a.answers ≡ b.answers

module _ (e : EventArgs) (now : ℕ) where
  project_onto-Same :
      (id : ℕ) (j : Option AutomationJob) (db : Db) → Same (project_onto e id now j db) db
  unfolding project_onto
  project_onto-Same id none db = ground arith
  project_onto-Same id (some j) db = ground arith

  project_event-Same : (id : ℕ) (db : Db) → Same (project_event e id now db) db
  unfolding project_event
  project_event-Same id db = ground (
    arith,
    project_onto-Same id (find_by (λ (j : AutomationJob). j.id) (or_else e.job_id "") db.jobs) db,
  )

  insert_event-Same : (c : Option Event) (db : Db) → Same (insert_event e now c db).0 db
  unfolding insert_event
  insert_event-Same none db =
      let p = project_event-Same db.next_event_id (record db {
        events = db.events ++ event_row e db.next_event_id now ∷ [];
        next_event_id = db.next_event_id + 1;
      }) in
      record {
        jobs = p.jobs;
        control = p.control;
        applications = p.applications;
        notifications = p.notifications;
        outbox = p.outbox;
        answers = p.answers;
      }
  insert_event-Same (some c) db = project_event-Same _ db

  append_unless-Same : (r : Option Event) (db : Db) → Same (append_unless e now r db).0 db
  unfolding append_unless
  append_unless-Same none db = insert_event-Same (find_where (clashes e) db.events) db
  append_unless-Same (some r) db = ground arith

  pub record_event-Same : (db : Db) → Same (record_event e now db).0 db
  unfolding record_event
  record_event-Same db = append_unless-Same (find_where (is_repeat e) db.events) db
