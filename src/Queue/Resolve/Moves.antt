-- ===== src/Queue/Resolve/Moves.antt =====
-- A resolution is the move `resolve` of the job that is named.
use job_applier.Base.{
  ℕ, ◌≡◌, refl, sym, subst, ◌∙◌, ◌&&◌, not, true, String, Option, none, some, arith, count_where,
  ◌==◌, Bool-cases, inl, inr,
}
use job_applier.Queue.State.{JobState, ambiguous_submission, state_eq}
use job_applier.Queue.Db.{AutomationJob, Db}
use job_applier.Queue.Events.Frame.{record_event-Same}
use job_applier.Queue.Lifecycle.{is_stopped_short, Move, resolve, Acts}
use job_applier.Queue.Lifecycle.Laws.{Acts-refl, Acts-same, Acts-trans, Acts-update, Acts-if, one}
use job_applier.Queue.Named.{named_job, is_unchanged, write_row}
use job_applier.Queue.Control.{is_wrong_owner}
use job_applier.Queue.Skip.Moves.{unchanged_state}
use job_applier.Queue.Resolve.{
  Resolution, as_resolved, save_answer, reopen_application, is_resolvable, resolve_known,
  resolve_row, resolve_job,
}

pub save_answer-jobs : (r : Resolution) (now : ℕ) (db : Db) → (save_answer r now db).jobs ≡ db.jobs
unfolding save_answer
save_answer-jobs r now db = ground arith

pub reopen_application-jobs :
    (app_id : String) (now : ℕ) (db : Db) → (reopen_application app_id now db).jobs ≡ db.jobs
unfolding reopen_application
reopen_application-jobs app_id now db = ground arith

stopped : (s : JobState) → is_resolvable s ≡ true → is_stopped_short s ≡ true
stopped s h = ground arith

module _ (r : Resolution) (now utc : ℕ) (db : Db) where
  resolved-Acts :
      (row : AutomationJob)
      → is_resolvable row.state ≡ true
      → Acts Move db (write_row row (as_resolved now) db)
  resolved-Acts row h =
      Acts-update (is_unchanged row) (as_resolved now) refl (λ j. refl)
        (λ j found same. one (
          resolve
            (stopped j.state
              (subst (λ s. is_resolvable s ≡ true) (sym (unchanged_state row j same)) h))
            refl refl refl refl))

  resolve_known-Acts :
      (row : AutomationJob)
      → is_resolvable row.state ≡ true
      → Acts Move db (resolve_known r row now db).0
  unfolding resolve_row
  resolve_known-Acts row h =
      Acts-if (count_where (is_unchanged row) db.jobs == 1) _ _
        (Acts-trans (resolved-Acts row h) (
          Acts-same (
            (record_event-Same _ now _).jobs
            ∙ reopen_application-jobs row.app_id now _
            ∙ save_answer-jobs r now (write_row row (as_resolved now) db))))
        (resolved-Acts row h)

  resolve_row-Acts : (o : Option AutomationJob) → Acts Move db (resolve_row r now utc o db).0
  unfolding resolve_row
  resolve_row-Acts none = Acts-refl db
  resolve_row-Acts (some row) =
      Acts-if (is_wrong_owner r.expected_owner utc db) _ _ (Acts-refl db) (
        Acts-if (state_eq row.state ambiguous_submission && not r.force) _ _ (Acts-refl db)
          (elim (Bool-cases (is_resolvable row.state)) [
            | inl open_to ↦ simp open_to (resolve_known-Acts row open_to)
            | inr ended ↦ simp ended (Acts-refl db)
          ]))

  pub resolve_job-Acts : Acts Move db (resolve_job r now utc db).0
  unfolding resolve_job
  resolve_job-Acts = resolve_row-Acts (named_job r.job_id db)
