-- ===== src/Queue/Skip/Moves.antt =====
-- A skip is the move `skip`, or `doubt` where the job may have been submitted.
use job_applier.Base.{
  ℕ, ◌≡◌, refl, sym, subst, ◌∙◌, true, String, Option, none, some, arith, count_where, ◌==◌,
  Bool-cases, inl, inr,
}
use job_applier.Queue.State.{JobState, is_submitting}
use job_applier.Queue.State.Laws.{state_eq→eq}
use job_applier.Queue.Db.{AutomationJob, ApplicationAttempt, Application, Db, get_application}
use job_applier.Queue.Events.Frame.{record_event-Same}
use job_applier.Queue.Lifecycle.{is_skippable, AutoMove, doubt, skip, Acts}
use job_applier.Queue.Lifecycle.Laws.{Acts-refl, Acts-same, Acts-trans, Acts-update, Acts-if, one}
use job_applier.Queue.Named.{named_job, is_unchanged, write_row}
use job_applier.Queue.Ambiguity.Moves.{record_alert-jobs}
use job_applier.Queue.Skip.{
  skip_message, as_skip_ambiguous, as_skipped, pre_submit_states, open_attempt, close_open,
  skip_projection, skip_application, skip_row, skip_job, skip_marked, skip_event, skip_submitting,
  skip_waiting,
}

close_open-jobs :
    (job_id message : String) (a : Option ApplicationAttempt) (now : ℕ) (db : Db)
    → (close_open job_id message a now db).jobs ≡ db.jobs
unfolding close_open
close_open-jobs job_id message none now db = refl
close_open-jobs job_id message (some a) now db = refl

skip_projection-jobs :
    (row : AutomationJob) (message fresh : String) (now : ℕ) (db : Db)
    → (skip_projection row message fresh now db).jobs ≡ db.jobs
unfolding skip_projection
skip_projection-jobs row message fresh now db =
    let (event_db, event_id) = skip_event row message now db in
    record_alert-jobs row.id (some row.app_id) event_id message fresh now event_db
    ∙ (record_event-Same _ now _).jobs
    ∙ close_open-jobs row.id message (open_attempt row.id (skip_marked row message now db)) now
        (skip_marked row message now db)

skip_application-jobs :
    (reason : String) (now : ℕ) (a : Option Application) (db : Db)
    → (skip_application reason now a db).0.jobs ≡ db.jobs
unfolding skip_application
skip_application-jobs reason now none db = refl
skip_application-jobs reason now (some a) db = (record_event-Same _ now _).jobs

pub unchanged_state : (row j : AutomationJob) → is_unchanged row j ≡ true → j.state ≡ row.state
unchanged_state row j h = state_eq→eq j.state row.state (ground arith)

skippable : (s : JobState) → pre_submit_states s ≡ true → is_skippable s ≡ true
skippable s h = ground arith

module _ (job_id reason fresh : String) (now : ℕ) (db : Db) where
  ambiguous-Acts :
      (row : AutomationJob)
      → is_submitting row.state ≡ true
      → Acts AutoMove db (write_row row (as_skip_ambiguous (skip_message reason) now) db)
  ambiguous-Acts row h =
      Acts-update (is_unchanged row) (as_skip_ambiguous (skip_message reason) now) refl (λ j. refl)
        (λ j found same.
          one (doubt (rw (unchanged_state row j same, h) (ground arith)) refl refl refl refl))

  skipped-Acts :
      (row : AutomationJob)
      → pre_submit_states row.state ≡ true
      → Acts AutoMove db (write_row row (as_skipped (skip_message reason) now) db)
  skipped-Acts row h =
      Acts-update (is_unchanged row) (as_skipped (skip_message reason) now) refl (λ j. refl)
        (λ j found same. one (
          skip
            (skippable j.state
              (subst (λ s. pre_submit_states s ≡ true) (sym (unchanged_state row j same)) h))
            refl refl refl refl))

  submitting-Acts :
      (row : AutomationJob)
      → is_submitting row.state ≡ true
      → Acts AutoMove db (skip_submitting row reason fresh now db).0
  unfolding skip_row
  submitting-Acts row h =
      Acts-if (count_where (is_unchanged row) db.jobs == 1) _ _
        (Acts-trans (ambiguous-Acts row h)
          (Acts-same (skip_projection-jobs row (skip_message reason) fresh now _)))
        (ambiguous-Acts row h)

  waiting-Acts :
      (row : AutomationJob)
      → pre_submit_states row.state ≡ true
      → Acts AutoMove db (skip_waiting row reason now db).0
  unfolding skip_row
  waiting-Acts row h =
      Acts-if (count_where (is_unchanged row) db.jobs == 1) _ _
        (Acts-trans (skipped-Acts row h) (Acts-same (record_event-Same _ now _).jobs))
        (skipped-Acts row h)

  skip_row-Acts :
      (o : Option AutomationJob) → Acts AutoMove db (skip_row job_id reason fresh now o db).0
  unfolding skip_row
  skip_row-Acts none = Acts-same (skip_application-jobs reason now (get_application job_id db) db)
  skip_row-Acts (some row) = elim (Bool-cases (is_submitting row.state)) [
    | inl busy ↦ simp busy (submitting-Acts row busy)
    | inr idle ↦ elim (Bool-cases (pre_submit_states row.state)) [
      | inl waits ↦ simp (idle, waits) (waiting-Acts row waits)
      | inr ended ↦ simp (idle, ended) (Acts-refl db)
    ]
  ]

  pub skip_job-Acts : Acts AutoMove db (skip_job job_id reason fresh now db).0
  unfolding skip_job
  skip_job-Acts = skip_row-Acts (named_job job_id db)
