-- ===== src/Queue/Ambiguity/Outcome.antt =====
-- What it means that a job was marked as ambiguous.
use job_applier.Base.{
  ℕ, ◌≡◌, ◌⊎◌, refl, ap, ◌∙◌, ◌||◌, not, Bool, true, false, String, Option, some, arith, IsKeyed,
  count_where, count_where-keyed, find_by-update_where, find_where-append, Bool-cases, Option-cases,
  inl, inr, is_text, eq_refl, ◌==◌, update_where,
}
use job_applier.Queue.State.{ambiguous_submission, state_eq}
use job_applier.Queue.State.Laws.{state_eq→eq}
use job_applier.Queue.Db.{AutomationJob, Db, OutboxItem, RuntimeControl, get_job, job_id_of}
use job_applier.Queue.Events.Frame.{record_event-Same}
use job_applier.Queue.Ambiguity.{
  AmbiguityArgs, message_of, attempt_for, ambiguity_event, settled, logged, project_ambiguity,
  may_become_ambiguous, as_ambiguous, make_ambiguous, is_projected, mark_row, mark_job_ambiguous,
}
use job_applier.Queue.Alert.{alert_key, has_alert, record_alert}
use job_applier.Queue.Ambiguity.Moves.{project_ambiguity-jobs}

module _ (job_id : String) (app_id : Option String) (event_id : ℕ) (message fresh : String)
    (now : ℕ) (db : Db) where
  record_alert-alerts :
      has_alert job_id (record_alert job_id app_id event_id message fresh now db).outbox ≡ true
  unfolding record_alert
  record_alert-alerts = elim (Bool-cases (has_alert job_id db.outbox)) [
    | inl old ↦ simp old
    | inr new ↦ simp new (
        find_where-append (λ (o : OutboxItem). is_text o.dedup_key (alert_key job_id)) db.outbox _
          (eq_refl (alert_key job_id)))
  ]

  record_alert-control :
      (record_alert job_id app_id event_id message fresh now db).control ≡ db.control
  unfolding record_alert
  record_alert-control = elim (Bool-cases (has_alert job_id db.outbox)) [
    | inl old ↦ simp old refl
    | inr new ↦ simp new refl
  ]

where_asked : (a b : Bool) → (a ≡ true → b ≡ true) → (not a || b) ≡ true
where_asked true b h = h refl
where_asked false b h = refl

module _ (m : AmbiguityArgs) (now : ℕ) where
  settled-pauses :
      (row : AutomationJob) (db : Db)
      → m.pause_runtime ≡ true
      → (settled m row now db).control.is_paused ≡ true
  settled-pauses row db h = rw h

  project_ambiguity-pauses :
      (row : AutomationJob) (db : Db)
      → m.pause_runtime ≡ true
      → (project_ambiguity m row now db).control.is_paused ≡ true
  unfolding project_ambiguity
  project_ambiguity-pauses row db h =
      let (event_db, event_id) = logged m row now db in
      ap (λ (c : RuntimeControl). c.is_paused)
        (record_alert-control m.job_id (some row.app_id) event_id (message_of m) m.fresh now
            event_db
          ∙ (record_event-Same (ambiguity_event m row (attempt_for m db)) now
              (settled m row now db)).control)
      ∙ settled-pauses row db h

  project_ambiguity-alerts :
      (row : AutomationJob) (db : Db)
      → has_alert m.job_id (project_ambiguity m row now db).outbox ≡ true
  unfolding project_ambiguity
  project_ambiguity-alerts row db =
      let (event_db, event_id) = logged m row now db in
      record_alert-alerts m.job_id (some row.app_id) event_id (message_of m) m.fresh now event_db

  -- The job of a transaction that marked it.
  pub record Doubt (before after : Db) : Type 0 where
    pub old : AutomationJob
    pub found : get_job m.job_id before ≡ some old
    pub job : AutomationJob
    pub stored : get_job m.job_id after ≡ some job
    pub ambiguous : job.state ≡ ambiguous_submission
    pub alerted : has_alert m.job_id after.outbox ≡ true
    pub paused : (not m.pause_runtime || after.control.is_paused) ≡ true

  paused_where_asked :
      (row : AutomationJob) (db : Db)
      → (not m.pause_runtime || (project_ambiguity m row now db).control.is_paused) ≡ true
  paused_where_asked row db =
      where_asked m.pause_runtime (project_ambiguity m row now db).control.is_paused
        (project_ambiguity-pauses row db)

  module _ (db : Db) (keyed : IsKeyed job_id_of db.jobs) (row : AutomationJob)
      (found : get_job m.job_id db ≡ some row) where
    changed_row :
        count_where (may_become_ambiguous m row.state now) db.jobs ≡ 1
        → (may_become_ambiguous m row.state now row) ≡ true
    changed_row one = ground (
      arith,
      rw
          (
            count_where-keyed job_id_of m.job_id (may_become_ambiguous m row.state now)
                (λ x h. ground arith) db.jobs keyed,
            found,
          )
          at one,
    )

    make_ambiguous-Doubt :
        ((make_ambiguous m row now db).1 ≡ true) → Doubt db (make_ambiguous m row now db).0
    unfolding make_ambiguous
    make_ambiguous-Doubt h =
        elim (Bool-cases (count_where (may_become_ambiguous m row.state now) db.jobs == 1)) [
          | inr e ↦ cc (rw e at h)
          | inl e ↦
              let passed = changed_row (ground arith) in
              let changed = record db {
                jobs =
                    update_where (may_become_ambiguous m row.state now) (as_ambiguous m now)
                      db.jobs;
              } in
              simp e (record {
                old = row;
                found = found;
                job = as_ambiguous m now row;
                stored = rw (
                  project_ambiguity-jobs m row now changed,
                  find_by-update_where job_id_of (may_become_ambiguous m row.state now)
                      (as_ambiguous m now) (λ j. refl) m.job_id db.jobs,
                  found,
                  passed,
                );
                ambiguous = refl;
                alerted = project_ambiguity-alerts row changed;
                paused = paused_where_asked row changed;
              })
        ]

    make_ambiguous-outcome :
        (((make_ambiguous m row now db).1 ≡ true) × Doubt db (make_ambiguous m row now db).0)
        ⊎ (make_ambiguous m row now db ≡ (db, false))
    unfolding make_ambiguous
    make_ambiguous-outcome =
        elim (Bool-cases (count_where (may_become_ambiguous m row.state now) db.jobs == 1)) [
          | inl e ↦
              let done : (make_ambiguous m row now db).1 ≡ true = rw e in
              inl (done, make_ambiguous-Doubt done)
          | inr e ↦ inr (rw e)
        ]

    repaired :
        state_eq row.state ambiguous_submission ≡ true → Doubt db (project_ambiguity m row now db)
    repaired e = record {
      old = row;
      found = found;
      job = row;
      stored = rw (project_ambiguity-jobs m row now db) found;
      ambiguous = state_eq→eq row.state ambiguous_submission e;
      alerted = project_ambiguity-alerts row db;
      paused = paused_where_asked row db;
    }

    mark_row-outcome :
        (((mark_row m (some row) now db).1 ≡ true) × Doubt db (mark_row m (some row) now db).0)
        ⊎ (mark_row m (some row) now db ≡ (db, false))
    unfolding mark_row
    mark_row-outcome = elim (Bool-cases (state_eq row.state ambiguous_submission)) [
      | inl e ↦ elim (Bool-cases (not m.repair_existing || is_projected row db)) [
        | inl f ↦ inr (simp (e, f))
        | inr f ↦ inl (simp (e, f), simp (e, f) (repaired e))
      ]
      | inr e ↦ elim (Bool-cases (m.is_source row.state)) [
        | inl f ↦ simp (e, f) make_ambiguous-outcome
        | inr f ↦ inr (simp (e, f))
      ]
    ]

  -- Marking a job as ambiguous happens as a whole or not at all. Either the answer is True, and then the job
  -- is in ambiguous_submission, the outbox holds an alert for it, and automation is paused where the caller
  -- asks for that; or the answer is False and the database is as it was.
  -- It is assumed that no two jobs have one id.
  pub mark_job_ambiguous-outcome :
      (db : Db)
      → IsKeyed job_id_of db.jobs
      → (((mark_job_ambiguous m now db).1 ≡ true) × Doubt db (mark_job_ambiguous m now db).0)
        ⊎ (mark_job_ambiguous m now db ≡ (db, false))
  unfolding mark_job_ambiguous
  mark_job_ambiguous-outcome db keyed = elim (Option-cases (get_job m.job_id db)) [
    | inl e ↦ inr (unfold mark_row in simp e)
    | inr (row, e) ↦ simp e (mark_row-outcome db keyed row e)
  ]
