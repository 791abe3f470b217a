-- ===== src/Queue/Enqueue/Moves.antt =====
-- A new job is appended, and the jobs that are there stay as they are.
use job_applier.Base.{
  ℕ, ◌≡◌, ◌&&◌, not, Bool, String, Option, none, some, [], ◌∷◌, ◌++◌, Option-cases, inl, inr,
  best_where, ℤ,
}
use job_applier.Queue.Db.{AutomationJob, Db, get_job, get_application, job_id_of}
use job_applier.Queue.Events.Frame.{record_event-Same}
use job_applier.Queue.Lifecycle.{Phase, here, Acts}
use job_applier.Queue.Lifecycle.Laws.{Acts-refl, Acts-same, Acts-if}
use job_applier.Base.{find_by-append, append-IsKeyed, is_some}
use job_applier.Queue.Enqueue.{insert_job, open_or_insert, enqueue_job, newer, is_open}

Acts-append :
    (R : Phase → Phase → Type 0) {a b : Db} (y : AutomationJob)
    → b.jobs ≡ a.jobs ++ y ∷ []
    → get_job y.id a ≡ none
    → Acts R a b
Acts-append R {a} {b} y e fresh = record {
  at = λ id j h. (j, rw (e, find_by-append job_id_of id a.jobs y, h), here);
  keyed = λ k. rw e (append-IsKeyed job_id_of a.jobs y k fresh);
}

module _ (R : Phase → Phase → Type 0) (now : ℕ) (db : Db) where
  insert_job-Acts : (y : AutomationJob) → Acts R db (insert_job y now db).0
  unfolding insert_job
  insert_job-Acts y = elim (Option-cases (get_job y.id db)) [
    | inl fresh ↦ simp fresh (
        Acts-if (is_some (get_application y.app_id db)) _ _
          (Acts-append R y (record_event-Same _ now _).jobs fresh) (Acts-refl db))
    | inr (old, taken) ↦ simp taken (Acts-refl db)
  ]

  open_or_insert-Acts :
      (o : Option AutomationJob) (y : AutomationJob) → Acts R db (open_or_insert o y now db).0
  unfolding open_or_insert
  open_or_insert-Acts (some j) y = Acts-refl db
  open_or_insert-Acts none y = insert_job-Acts y

  pub enqueue_job-Acts :
      (app_id adapter : String) (priority : ℤ) (max_retries : ℕ) (verify_artifacts has_art : Bool)
      (fresh : String)
      → Acts R db
          (enqueue_job app_id adapter priority max_retries verify_artifacts has_art fresh now db).0
  unfolding enqueue_job
  enqueue_job-Acts app_id adapter priority max_retries verify_artifacts has_art fresh =
      Acts-if (verify_artifacts && not has_art) _ _ (Acts-same (record_event-Same _ now _).jobs)
        (open_or_insert-Acts (best_where newer (is_open app_id) db.jobs) _)
