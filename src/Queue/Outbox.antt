-- ===== src/Queue/Outbox.antt =====
-- The alerts and the outbox (src/job_applier/automation/queue.py): `create_notification`,
-- `enqueue_notification`, `get_pending_notifications`, `mark_notification_sent` and
-- `mark_notification_retry`. The thread that sends the outbox is not modelled.
pub mod Moves
pub mod Pending
pub mod Linked
use job_applier.Base.{
  ℕ, zero, suc, ◌+◌, String, Bool, false, not, ◌&&◌, ◌||◌, Option, none, some, List, [], ◌∷◌, ◌++◌,
  ltb, ◌==◌, str_eq, is_text, is_none, non_empty, or_else, ◌<>◌, not_after, if◌then◌else◌,
  update_where, count_where, find_by,
}
use job_applier.Queue.Db.{Db, OutboxItem}
use job_applier.Queue.Events.{event, record_event}

abbrev level_of : String → String
level_of severity =
    if str_eq severity "info"
    then "INFO"
    else if str_eq severity "warning"
    then "WARNING"
    else if str_eq severity "error"
    then "ERROR"
    else if str_eq severity "critical"
    then "CRITICAL"
    else "INFO"

pub create_notification :
    (category message severity : String) (job_id app_id : Option String) (fresh : String) (now : ℕ)
    → Db
    → Db
create_notification category message severity job_id app_id fresh now db =
    let (logged, event_id) =
      record_event (event job_id app_id "notification" (level_of severity) "alert") now db in
    record logged {
      notifications =
          logged.notifications
          ++ record {
            notification_id = "notif_" <> fresh;
            job_id = job_id;
            app_id = app_id;
            event_id = some event_id;
            category = category;
            severity = severity;
            message = message;
            acknowledged = false;
            created_at = now;
          }
            ∷ [];
    }

abbrev pub severity_of : Option String → String → String
severity_of severity urgency = or_else severity (
    if str_eq urgency "critical" || str_eq urgency "high"
    then "critical"
    else if str_eq urgency "normal"
    then "warning"
    else "info")

-- INSERT … ON CONFLICT(dedup_key) DO UPDATE SET message, created_at
pub upsert_item : OutboxItem → List OutboxItem → List OutboxItem
upsert_item new [] = new ∷ []
upsert_item new (old ∷ rest) =
    if is_text old.dedup_key (or_else new.dedup_key "")
    then record old { message = new.message; created_at = new.created_at } ∷ rest
    else old ∷ upsert_item new rest

-- `fresh` is the random part of the alert's own id and `fresh_item` that of the outbox item's.
pub enqueue_notification :
    (category message urgency : String) (dedup_key job_id app_id severity : Option String)
    (fresh fresh_item : String) (now : ℕ)
    → Db
    → Db
unfolding create_notification upsert_item
enqueue_notification category message urgency dedup_key job_id app_id severity fresh fresh_item now
      db =
    let alerted =
      create_notification category message (severity_of severity urgency) job_id app_id fresh now
        db in
    record alerted {
      outbox =
          upsert_item
            (record {
              id = "notif_" <> fresh_item;
              dedup_key = some (or_else dedup_key (category <> "_notif_" <> fresh_item));
              status = "pending";
              category = category;
              urgency = urgency;
              message = message;
              attempt_count = 0;
              last_error = none;
              created_at = now;
              sent_at = none;
              next_retry_at = none;
            })
            alerted.outbox;
    }

-- WHERE of the selection
pub is_pending : (due_only : Bool) (now : ℕ) → OutboxItem → Bool
is_pending due_only now o =
    str_eq o.status "pending"
    && (not due_only || (is_none o.next_retry_at || not_after o.next_retry_at now))

-- ORDER BY created_at ASC: a row goes in front of the younger ones.
abbrev pub insert_by_age : OutboxItem → List OutboxItem → List OutboxItem
insert_by_age o [] = o ∷ []
insert_by_age o (p ∷ ps) =
    if ltb p.created_at o.created_at then p ∷ insert_by_age o ps else o ∷ p ∷ ps

abbrev pub pending_by_age : (OutboxItem → Bool) → List OutboxItem → List OutboxItem
pending_by_age p [] = []
pending_by_age p (o ∷ os) =
    let rest = pending_by_age p os in if p o then insert_by_age o rest else rest

abbrev pub take : ℕ → List OutboxItem → List OutboxItem
take zero os = []
take (suc n) [] = []
take (suc n) (o ∷ os) = o ∷ take n os

pub get_pending_notifications : (limit : ℕ) (due_only : Bool) (now : ℕ) → Db → List OutboxItem
unfolding is_pending
get_pending_notifications limit due_only now db =
    take limit (pending_by_age (is_pending due_only now) db.outbox)

pub mark_notification_sent : (notif_id error : String) (now : ℕ) → Db → Db × Bool
mark_notification_sent notif_id error now db = (
  record db {
    outbox =
        update_where (λ (o : OutboxItem). str_eq o.id notif_id)
          (λ o. record o {
            status = if non_empty error then "failed" else "delivered";
            last_error = some error;
            sent_at = some now;
            attempt_count = o.attempt_count + 1;
            next_retry_at = none;
          })
          db.outbox;
  },
  ltb 0 (count_where (λ (o : OutboxItem). str_eq o.id notif_id) db.outbox),
)

-- `delays[min(current_attempts, 4)]`
pub outbox_delay : ℕ → ℕ
outbox_delay attempts =
    if attempts == 0
    then 15
    else if attempts == 1
    then 45
    else if attempts == 2
    then 120
    else if attempts == 3
    then 300
    else 600

abbrev attempts_of : Option OutboxItem → ℕ
attempts_of none = 0
attempts_of (some o) = o.attempt_count

pub mark_notification_retry : (notif_id error : String) (now : ℕ) → Db → Db × Bool
unfolding outbox_delay
mark_notification_retry notif_id error now db =
    let delay =
      outbox_delay (attempts_of (find_by (λ (o : OutboxItem). o.id) notif_id db.outbox)) in
    (
      record db {
        outbox =
            update_where (λ (o : OutboxItem). str_eq o.id notif_id)
              (λ o. record o {
                attempt_count = o.attempt_count + 1;
                last_error = some error;
                sent_at = some now;
                next_retry_at = some (now + delay);
              })
              db.outbox;
      },
      ltb 0 (count_where (λ (o : OutboxItem). str_eq o.id notif_id) db.outbox),
    )
