-- ===== src/Queue/Alert.antt =====
-- The alert of an ambiguous outcome (src/job_applier/automation/queue.py):
-- `_record_ambiguous_notification_on_conn`.
use job_applier.Base.{
  ℕ, String, Bool, false, ◌&&◌, Option, none, some, List, [], ◌∷◌, ◌++◌, str_eq, is_text, is_some,
  ◌<>◌, if◌then◌else◌, find_where,
}
use job_applier.Queue.Db.{Db, Notification, OutboxItem}

abbrev pub alert_key : String → String
alert_key job_id = "ambiguous_submission:" <> job_id

abbrev pub has_alert : String → List OutboxItem → Bool
has_alert job_id items = is_some (find_where (λ o. is_text o.dedup_key (alert_key job_id)) items)

-- `_record_ambiguous_notification_on_conn`
unfoldable pub record_alert :
    (job_id : String) (app_id : Option String) (event_id : ℕ) (message fresh : String) (now : ℕ)
    → Db
    → Db
record_alert job_id app_id event_id message fresh now db =
    let seen : Bool = is_some (
      find_where
        (λ (n : Notification). is_text n.job_id job_id && str_eq n.category "ambiguous_submission")
        db.notifications) in
    let alert : Notification = record {
      notification_id = "notif_" <> fresh;
      job_id = some job_id;
      app_id = app_id;
      event_id = some event_id;
      category = "ambiguous_submission";
      severity = "critical";
      message = message;
      acknowledged = false;
      created_at = now;
    } in
    let item : OutboxItem = record {
      id = "notif_" <> fresh;
      dedup_key = some (alert_key job_id);
      status = "pending";
      category = "ambiguous_submission";
      urgency = "high";
      message = message;
      attempt_count = 0;
      last_error = none;
      created_at = now;
      sent_at = none;
      next_retry_at = none;
    } in
    if has_alert job_id db.outbox then db else record db {
      notifications = if seen then db.notifications else db.notifications ++ alert ∷ [];
      outbox = db.outbox ++ item ∷ [];
    }
