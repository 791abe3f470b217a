-- ===== src/Queue/Cancel/Moves.antt =====
-- A cancellation is the move `cancel` of the job that is named.
use job_applier.Base.{
  if◌then◌else◌, arith, ℕ, ◌≡◌, refl, String, Option, none, some, count_where, str_eq, ltb,
  non_empty,
}
use job_applier.Queue.State.{JobState, cancelled}
use job_applier.Queue.Db.{AutomationJob, Application, Db, get_application, set_application}
use job_applier.Queue.Events.Frame.{record_event-Same}
use job_applier.Queue.Lifecycle.{AutoMove, cancel, Acts, ends_at_once}
use job_applier.Queue.Lifecycle.Laws.{
  Acts-refl, Acts-same, Acts-trans, Acts-update, Acts-if, Acts-if_db, one,
}
use job_applier.Queue.Named.{named_job}
use job_applier.Queue.Cancel.{
  is_waiting, as_cancelled, cancel_rows, cancel_application, cancel_row, cancel_job, text_or_none,
}

waiting_ends :
    (s : JobState)
    → (if is_waiting s then cancelled else s) ≡ (if ends_at_once s then cancelled else s)
waiting_ends s = ground arith

module _ (key reason : String) (now : ℕ) (db : Db) where
  cancel_application-jobs :
      (a : Option Application) → (cancel_application key reason now a db).0.jobs ≡ db.jobs
  unfolding cancel_application
  cancel_application-jobs none = refl
  cancel_application-jobs (some a) = (record_event-Same _ now _).jobs

  cancel_rows-Acts : (id : String) → Acts AutoMove db (cancel_rows id reason now db)
  cancel_rows-Acts id =
      Acts-update (λ (r : AutomationJob). str_eq r.id id) (as_cancelled reason now) refl (λ j. refl)
        (λ j found named. one (cancel (waiting_ends j.state) refl refl refl))

  cancel_row-Acts : (o : Option AutomationJob) → Acts AutoMove db (cancel_row key reason now o db).0
  unfolding cancel_row
  cancel_row-Acts none = Acts-same (cancel_application-jobs (get_application key db))
  cancel_row-Acts (some j) =
      Acts-if (ltb 0 (count_where (λ (r : AutomationJob). str_eq r.id j.id) db.jobs)) _ _
        (Acts-trans
          (Acts-trans (cancel_rows-Acts j.id) (
            Acts-if_db (non_empty j.app_id)
              (set_application j.app_id "cancelled" (text_or_none reason) now
                (cancel_rows j.id reason now db))
              (cancel_rows j.id reason now db) (Acts-same refl) (Acts-refl _)))
          (Acts-same (record_event-Same _ now _).jobs))
        (cancel_rows-Acts j.id)

  pub cancel_job-Acts : Acts AutoMove db (cancel_job key reason now db).0
  unfolding cancel_job
  cancel_job-Acts = cancel_row-Acts (named_job key db)
