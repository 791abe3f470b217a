-- ===== src/Queue/Resolve/Outcome.antt =====
-- What it means that the operator resolved a job.
use job_applier.Base.{
  is_text→eq, ◌<◌, ℕ, ◌+◌, ◌≡◌, ◌⊎◌, refl, sym, ◌∙◌, ◌&&◌, ◌||◌, not, true, false, String, Option,
  none, some, arith, IsKeyed, count_where, find_by-update_where, best_where_passes,
  best_where-find_by, Bool-cases, inl, inr, str_eq, eq_iff, eq_refl, ◌==◌,
}
use job_applier.Queue.State.{
  JobState, ready, skipped, auth_required, mfa_required, captcha_required, unknown_question,
  site_changed, ambiguous_submission, state_eq,
}
use job_applier.Queue.Db.{AutomationJob, Db, get_job, job_id_of, ok}
use job_applier.Queue.Events.{event}
use job_applier.Queue.Events.Frame.{record_event-Same}
use job_applier.Queue.Enqueue.{newer}
use job_applier.Queue.Transition.Outcome.{after-until}
use job_applier.Queue.Named.{named_job, is_unchanged, write_row}
use job_applier.Queue.Control.{is_wrong_owner}
use job_applier.Queue.Resolve.{
  Resolution, as_resolved, save_answer, reopen_application, is_resolvable, resolve_known,
  resolve_row, resolve_job,
}
use job_applier.Queue.Resolve.Moves.{save_answer-jobs, reopen_application-jobs}

-- The job waits for the operator, or was skipped.
abbrev pub IsHeld : JobState → Type 0
IsHeld s =
    (s ≡ skipped)
    ⊎ ((s ≡ ambiguous_submission)
        ⊎ ((s ≡ unknown_question)
            ⊎ ((s ≡ site_changed)
                ⊎ ((s ≡ auth_required) ⊎ ((s ≡ mfa_required) ⊎ (s ≡ captcha_required))))))

is_resolvable-IsHeld : (s : JobState) → is_resolvable s ≡ true → IsHeld s
is_resolvable-IsHeld s h = ground (arith, h)

matching_owner :
    (expected : Option String) (utc : ℕ) (db : Db)
    → is_wrong_owner expected utc db ≡ false
    → (o : String) → expected ≡ some o
    → (db.control.manual_takeover_owner ≡ some o)
      × (until : ℕ) × (db.control.manual_takeover_expires_at ≡ some until)
      × (utc < until)
matching_owner none utc db h o e = cc e
matching_owner (some x) utc db h o e =
    let same : x ≡ o = ground (arith, e) in
    let (until, expires, live) =
      after-until db.control.manual_takeover_expires_at utc (ground arith) in
    (
      is_text→eq db.control.manual_takeover_owner o (rw (sym same) (ground arith)),
      until,
      expires,
      live,
    )

-- A resolution that was carried out.
pub record Resolved (r : Resolution) (utc : ℕ) (before after_it : Db) : Type 0 where
  -- the job, named by its own id or its application's
  pub old : AutomationJob
  pub named : (old.id ≡ r.job_id) ⊎ (old.app_id ≡ r.job_id)
  pub found : get_job old.id before ≡ some old
  pub held : IsHeld old.state
  pub forced : old.state ≡ ambiguous_submission → r.force ≡ true
  -- the caller has the takeover that it names
  pub allowed :
      (o : String)
      → r.expected_owner ≡ some o
      → (before.control.manual_takeover_owner ≡ some o)
        × (until : ℕ) × (before.control.manual_takeover_expires_at ≡ some until)
        × (utc < until)
  -- it is ready again, and its worker is fenced out
  pub new : AutomationJob
  pub stored : get_job old.id after_it ≡ some new
  pub state : new.state ≡ ready
  pub owner : new.lease_owner ≡ none
  pub until : new.lease_expires_at ≡ none
  pub generation : new.fencing_generation ≡ old.fencing_generation + 1
  pub alive : new.is_cancelled ≡ false

by_name : (a b key : String) → (str_eq a key || str_eq b key) ≡ true → (a ≡ key) ⊎ (b ≡ key)
by_name a b key h = elim (Bool-cases (str_eq a key)) [
  | inl e ↦ inl ((eq_iff a key).0 e)
  | inr e ↦ inr ((eq_iff b key).0 (rw e at h))
]

module _ (r : Resolution) (now utc : ℕ) (db : Db) (keyed : IsKeyed job_id_of db.jobs) where
  resolved :
      (row : AutomationJob)
      → named_job r.job_id db ≡ some row
      → is_resolvable row.state ≡ true
      → (state_eq row.state ambiguous_submission && not r.force) ≡ false
      → is_wrong_owner r.expected_owner utc db ≡ false
      → (resolve_known r row now db).1 ≡ ok true
      → Resolved r utc db (resolve_known r row now db).0
  unfolding resolve_row
  resolved row is open_to forced right h =
      let p = λ (j : AutomationJob). str_eq j.id r.job_id || str_eq j.app_id r.job_id in
      let found = best_where-find_by job_id_of newer p db.jobs row keyed is in
      elim (Bool-cases (count_where (is_unchanged row) db.jobs == 1)) [
        | inr e ↦ cc (rw e at h)
        | inl e ↦ rw e (record {
          old = row;
          named = by_name row.id row.app_id r.job_id (best_where_passes newer p db.jobs is);
          found = found;
          held = is_resolvable-IsHeld row.state open_to;
          forced = λ doubt. ground (arith, rw doubt at forced);
          allowed = matching_owner r.expected_owner utc db right;
          new = as_resolved now row;
          stored = rw (
            (record_event-Same
                  (event (some row.id) (some row.app_id) "job_resolved" "INFO" "resolved") now
                  (reopen_application row.app_id now
                    (save_answer r now (write_row row (as_resolved now) db)))).jobs
                ∙ reopen_application-jobs row.app_id now _
                ∙ save_answer-jobs r now (write_row row (as_resolved now) db),
            find_by-update_where job_id_of (is_unchanged row) (as_resolved now) (λ j. refl) row.id
                db.jobs,
            found,
            is_itself row,
          );
          state = refl;
          owner = refl;
          until = refl;
          generation = refl;
          alive = refl;
        })
      ]
    where
      is_itself : (j : AutomationJob) → is_unchanged j j ≡ true
      is_itself j = ground (arith, eq_refl j.id)

  settled_row :
      (o : Option AutomationJob)
      → named_job r.job_id db ≡ o
      → (resolve_row r now utc o db).1 ≡ ok true
      → Resolved r utc db (resolve_row r now utc o db).0
  unfolding resolve_row
  settled_row none is h = cc h
  settled_row (some row) is h = elim (Bool-cases (is_wrong_owner r.expected_owner utc db)) [
    | inl e ↦ cc (rw e at h)
    | inr e ↦ elim (Bool-cases (state_eq row.state ambiguous_submission && not r.force)) [
      | inl f ↦ cc (rw (e, f) at h)
      | inr f ↦ elim (Bool-cases (is_resolvable row.state)) [
        | inl g ↦ rw (e, f, g) (resolved row is g f e (rw (e, f, g) at h))
        | inr g ↦ cc (rw (e, f, g) at h)
      ]
    ]
  ]

  -- A resolution that answers True was of a job that waits for the operator or was skipped, named by its id or
  -- its application's, and where the outcome of a submission is unknown it was forced; and a caller that names an owner of the takeover named
  -- the one that has it. The job is ready now, not
  -- cancelled and without a lease, under the next generation. It is assumed that no two jobs have one id.
  pub resolve_job-Resolved :
      (resolve_job r now utc db).1 ≡ ok true → Resolved r utc db (resolve_job r now utc db).0
  unfolding resolve_job
  resolve_job-Resolved h = settled_row (named_job r.job_id db) refl h
