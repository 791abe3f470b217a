-- ===== src/Queue/Outbox/Linked.antt =====
-- The alert that is stored within another transaction (src/job_applier/automation/queue.py):
-- `_enqueue_notification_on_conn`. `upper` stands for `str.upper`.
pub mod Moves
use job_applier.Base.{ℕ, String, false, Option, none, some, List, [], ◌∷◌, ◌++◌, or_else, ◌<>◌}
use job_applier.Queue.Db.{Db}
use job_applier.Queue.Events.{event, record_event}
use job_applier.Queue.Outbox.{severity_of, upsert_item}

-- The event of the alert: the one given, or a new one.
abbrev pub link_event :
    (upper : String → String) (severity : String) (job_id app_id : Option String)
    (event_id : Option ℕ) (now : ℕ)
    → Db
    → Db × ℕ
link_event upper severity job_id app_id (some id) now db = (db, id)
link_event upper severity job_id app_id none now db =
    record_event (event job_id app_id "notification" (upper severity) "alert") now db

-- One id serves the alert and the outbox item.
unfoldable pub enqueue_notification_on_conn :
    (upper : String → String) (category message urgency : String)
    (dedup_key job_id app_id severity : Option String) (event_id : Option ℕ) (fresh : String)
    (now : ℕ)
    → Db
    → Db
enqueue_notification_on_conn upper category message urgency dedup_key job_id app_id severity
      event_id fresh now db =
    let (logged, linked) =
      link_event upper (severity_of severity urgency) job_id app_id event_id now db in
    record logged {
      notifications =
          logged.notifications
          ++ record {
            notification_id = "notif_" <> fresh;
            job_id = job_id;
            app_id = app_id;
            event_id = some linked;
            category = category;
            severity = severity_of severity urgency;
            message = message;
            acknowledged = false;
            created_at = now;
          }
            ∷ [];
      outbox =
          upsert_item
            (record {
              id = "notif_" <> fresh;
              dedup_key = some (or_else dedup_key (category <> "_notif_" <> fresh));
              status = "pending";
              category = category;
              urgency = urgency;
              message = message;
              attempt_count = 0;
              last_error = none;
              created_at = now;
              sent_at = none;
              next_retry_at = none;
            })
            logged.outbox;
    }
