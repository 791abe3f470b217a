-- ===== src/Queue/Ambiguity/Moves.antt =====
-- Marking a job as ambiguous is the move `doubt` of that job.
use job_applier.Base.{
  ℕ, ◌≡◌, refl, sym, subst, ◌∙◌, ◌||◌, not, true, String, Option, none, some, arith, count_where,
  ◌==◌, Bool-cases, inl, inr,
}
use job_applier.Queue.State.{JobState, ambiguous_submission, state_eq, is_preparing, is_submitting}
use job_applier.Queue.State.Laws.{state_eq→eq}
use job_applier.Queue.Db.{AutomationJob, ApplicationAttempt, Db, get_job}
use job_applier.Queue.Events.Frame.{record_event-Same}
use job_applier.Queue.Lifecycle.{AutoMove, doubt, Acts}
use job_applier.Queue.Lifecycle.Laws.{Acts-refl, Acts-same, Acts-update, Acts-if, one}
use job_applier.Queue.Ambiguity.{
  AmbiguityArgs, message_of, is_projected, attempt_for, close_attempt, ambiguity_event, settled,
  logged, project_ambiguity, may_become_ambiguous, as_ambiguous, make_ambiguous, mark_row,
  mark_job_ambiguous,
}
use job_applier.Queue.Alert.{has_alert, record_alert}

pub record_alert-jobs :
    (job_id : String) (app_id : Option String) (event_id : ℕ) (message fresh : String) (now : ℕ)
    (db : Db)
    → (record_alert job_id app_id event_id message fresh now db).jobs ≡ db.jobs
unfolding record_alert
record_alert-jobs job_id app_id event_id message fresh now db =
    elim (Bool-cases (has_alert job_id db.outbox)) [
      | inl old ↦ simp old refl
      | inr new ↦ simp new refl
    ]

close_attempt-jobs :
    (m : AmbiguityArgs) (a : Option ApplicationAttempt) (now : ℕ) (db : Db)
    → (close_attempt m a now db).jobs ≡ db.jobs
unfolding close_attempt
close_attempt-jobs m none now db = refl
close_attempt-jobs m (some a) now db = refl

pub settled-jobs :
    (m : AmbiguityArgs) (row : AutomationJob) (now : ℕ) (db : Db)
    → (settled m row now db).jobs ≡ db.jobs
settled-jobs m row now db = elim (Bool-cases m.pause_runtime) [
  | inl pauses ↦ simp pauses (close_attempt-jobs m (attempt_for m db) now db)
  | inr goes_on ↦ simp goes_on (close_attempt-jobs m (attempt_for m db) now db)
]

pub project_ambiguity-jobs :
    (m : AmbiguityArgs) (row : AutomationJob) (now : ℕ) (db : Db)
    → (project_ambiguity m row now db).jobs ≡ db.jobs
unfolding project_ambiguity
project_ambiguity-jobs m row now db =
    let (event_db, event_id) = logged m row now db in
    record_alert-jobs m.job_id (some row.app_id) event_id (message_of m) m.fresh now event_db
    ∙ (record_event-Same (ambiguity_event m row (attempt_for m db)) now (settled m row now db)).jobs
    ∙ settled-jobs m row now db

module _ (m : AmbiguityArgs)
    (sources : (s : JobState)
      → m.is_source s ≡ true
      → (is_preparing s || is_submitting s) ≡ true) where
  was_source :
      (row j : AutomationJob) (now : ℕ)
      → m.is_source row.state ≡ true
      → may_become_ambiguous m row.state now j ≡ true
      → (is_preparing j.state || is_submitting j.state) ≡ true
  was_source row j now h may =
      subst (λ s. (is_preparing s || is_submitting s) ≡ true)
        (sym (state_eq→eq j.state row.state (ground arith))) (sources row.state h)

  make_ambiguous-Acts :
      (row : AutomationJob) (now : ℕ) (db : Db)
      → m.is_source row.state ≡ true
      → Acts AutoMove db (make_ambiguous m row now db).0
  unfolding make_ambiguous
  make_ambiguous-Acts row now db h =
      Acts-if (count_where (may_become_ambiguous m row.state now) db.jobs == 1) _ _
        (Acts-update (may_become_ambiguous m row.state now) (as_ambiguous m now)
          (project_ambiguity-jobs m row now _) (λ j. refl)
          (λ j found may. one (doubt (was_source row j now h may) refl refl refl refl)))
        (Acts-refl db)

  mark_row-Acts :
      (o : Option AutomationJob) (now : ℕ) (db : Db) → Acts AutoMove db (mark_row m o now db).0
  unfolding mark_row
  mark_row-Acts none now db = Acts-refl db
  mark_row-Acts (some row) now db =
      Acts-if (state_eq row.state ambiguous_submission) _ _
        (Acts-if (not m.repair_existing || is_projected row db) _ _ (Acts-refl db)
          (Acts-same (project_ambiguity-jobs m row now db)))
        (elim (Bool-cases (m.is_source row.state)) [
          | inl source ↦ simp source (make_ambiguous-Acts row now db source)
          | inr other ↦ simp other (Acts-refl db)
        ])

  pub mark_job_ambiguous-Acts :
      (now : ℕ) (db : Db) → Acts AutoMove db (mark_job_ambiguous m now db).0
  unfolding mark_job_ambiguous
  mark_job_ambiguous-Acts now db = mark_row-Acts (get_job m.job_id db) now db
