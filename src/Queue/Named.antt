-- ===== src/Queue/Named.antt =====
-- The job that an operator names by its own id or by its application's, and the write that is fenced by
-- the row as it was read (src/job_applier/automation/queue.py).
use job_applier.Base.{String, Bool, ◌&&◌, ◌||◌, Option, ◌==◌, str_eq, update_where, best_where}
use job_applier.Queue.State.{state_eq}
use job_applier.Queue.Db.{Db, AutomationJob}
use job_applier.Queue.Enqueue.{newer}

-- WHERE id = ? OR app_id = ?, ORDER BY created_at DESC LIMIT 1
abbrev pub named_job : String → Db → Option AutomationJob
named_job key db =
    best_where newer (λ (j : AutomationJob). str_eq j.id key || str_eq j.app_id key) db.jobs

-- WHERE id = ? AND state = ? AND fencing_generation = ?, of the row as it was read
abbrev pub is_unchanged : AutomationJob → AutomationJob → Bool
is_unchanged row r =
    str_eq r.id row.id
    && (state_eq r.state row.state && r.fencing_generation == row.fencing_generation)

abbrev pub write_row : AutomationJob → (AutomationJob → AutomationJob) → Db → Db
write_row row f db = record db { jobs = update_where (is_unchanged row) f db.jobs }
