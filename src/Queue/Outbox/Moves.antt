-- ===== src/Queue/Outbox/Moves.antt =====
-- Alerts leave the jobs alone.
use job_applier.Base.{ℕ, ◌≡◌, refl, String, Option}
use job_applier.Queue.Db.{Db}
use job_applier.Queue.Events.Frame.{record_event-Same}
use job_applier.Queue.Outbox.{enqueue_notification, mark_notification_sent, mark_notification_retry}

pub enqueue_notification-jobs :
    (category message urgency : String) (dedup_key job_id app_id severity : Option String)
    (fresh fresh_item : String) (now : ℕ) (db : Db)
    → (enqueue_notification category message urgency dedup_key job_id app_id severity fresh
        fresh_item now db).jobs
      ≡ db.jobs
unfolding enqueue_notification
enqueue_notification-jobs category message urgency dedup_key job_id app_id severity fresh fresh_item
      now db =
    (record_event-Same _ now db).jobs

pub enqueue_notification-control :
    (category message urgency : String) (dedup_key job_id app_id severity : Option String)
    (fresh fresh_item : String) (now : ℕ) (db : Db)
    → (enqueue_notification category message urgency dedup_key job_id app_id severity fresh
        fresh_item now db).control
      ≡ db.control
unfolding enqueue_notification
enqueue_notification-control category message urgency dedup_key job_id app_id severity fresh
      fresh_item now db =
    (record_event-Same _ now db).control

pub mark_notification_sent-jobs :
    (notif_id error : String) (now : ℕ) (db : Db)
    → (mark_notification_sent notif_id error now db).0.jobs ≡ db.jobs
unfolding mark_notification_sent
mark_notification_sent-jobs notif_id error now db = refl

pub mark_notification_retry-jobs :
    (notif_id error : String) (now : ℕ) (db : Db)
    → (mark_notification_retry notif_id error now db).0.jobs ≡ db.jobs
unfolding mark_notification_retry
mark_notification_retry-jobs notif_id error now db = refl
