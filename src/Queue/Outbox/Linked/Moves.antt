-- ===== src/Queue/Outbox/Linked/Moves.antt =====
-- The alert of another transaction leaves the jobs and the controls alone.
use job_applier.Base.{ℕ, ◌≡◌, refl, String, Option, none, some}
use job_applier.Queue.Db.{Db}
use job_applier.Queue.Events.Frame.{record_event-Same}
use job_applier.Queue.Outbox.Linked.{link_event, enqueue_notification_on_conn}

link_event-jobs :
    (upper : String → String) (severity : String) (job_id app_id : Option String)
    (event_id : Option ℕ) (now : ℕ) (db : Db)
    → ((link_event upper severity job_id app_id event_id now db).0.jobs ≡ db.jobs)
      × ((link_event upper severity job_id app_id event_id now db).0.control ≡ db.control)
link_event-jobs upper severity job_id app_id none now db =
    let same = record_event-Same _ now db in (same.jobs, same.control)
link_event-jobs upper severity job_id app_id (some id) now db = (refl, refl)

pub enqueue_notification_on_conn-Same :
    (upper : String → String) (category message urgency : String)
    (dedup_key job_id app_id severity : Option String) (event_id : Option ℕ) (fresh : String)
    (now : ℕ) (db : Db)
    → ((enqueue_notification_on_conn upper category message urgency dedup_key job_id app_id severity
          event_id fresh now db).jobs
        ≡ db.jobs)
      × ((enqueue_notification_on_conn upper category message urgency dedup_key job_id app_id
            severity event_id fresh now db).control
          ≡ db.control)
unfolding enqueue_notification_on_conn
enqueue_notification_on_conn-Same upper category message urgency dedup_key job_id app_id severity
      event_id fresh now db =
    link_event-jobs upper _ job_id app_id event_id now db
