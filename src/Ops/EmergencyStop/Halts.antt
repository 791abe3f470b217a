-- ===== src/Ops/EmergencyStop/Halts.antt =====
-- What the emergency stop does, and for whom.
use job_applier.Base.{
  ℕ, ◌≡◌, ◌<◌, refl, ap, ◌∙◌, ◌||◌, select_ordered, Bool, true, false, String, Option, none, some,
  arith, IsKeyed, find_by, find_by-update_where, find_by-select_ordered, update_where, updated,
  if◌then◌else◌, Bool-cases, inl, inr,
}
use job_applier.Queue.State.{ready, ambiguous_submission, is_preparing, is_submitting}
use job_applier.Queue.Db.{AutomationJob, Db, RuntimeControl, get_job, job_id_of}
use job_applier.Queue.Events.Frame.{record_event-Same}
use job_applier.Queue.Outbox.Linked.Moves.{enqueue_notification_on_conn-Same}
use job_applier.Queue.Ambiguity.Rows.{may_become_ambiguous-own}
use job_applier.Queue.Control.{is_wrong_owner}
use job_applier.Queue.Recovery.Settled.{Fits, mark_each-other, mark_each-settles}
use job_applier.Ops.EmergencyStop.{
  StopArgs, Readings, stop_args, by_id, may_have_submitted, mark_submitting, halt_control,
  revoke_jobs, is_interrupted_early, as_revoked, engage, emergency_stop,
}

pub engage-jobs :
    (a : StopArgs) (now : ℕ) (db : Db)
    → ((engage a now db).jobs ≡ update_where is_interrupted_early (as_revoked now) db.jobs)
      × ((engage a now db).control ≡ (halt_control now db).control)
unfolding engage
engage-jobs a now db =
    let alerted = enqueue_notification_on_conn-Same a.upper _ _ _ _ _ _ _ _ _ now _ in
    let logged = record_event-Same _ now (revoke_jobs now (halt_control now db)) in
    (alerted.0 ∙ logged.jobs, alerted.1 ∙ logged.control)

pub stop-Fits : (a : StopArgs) (now : ℕ) → Fits (stop_args a.fresh) now
stop-Fits a now = record {
  same_id = λ j. refl;
  source = λ j h. rw h (ground arith);
  met = λ j h. may_become_ambiguous-own (stop_args a.fresh j) now j refl refl refl refl;
  sources = λ j s h. h;
}

-- What has become of a job.
pub record Halted (old new : AutomationJob) : Type 0 where
  pub settled : is_submitting old.state ≡ true → new.state ≡ ambiguous_submission
  pub returned : is_preparing old.state ≡ true → new.state ≡ ready
  pub fenced :
      (is_preparing old.state || is_submitting old.state) ≡ true
      → old.fencing_generation < new.fencing_generation
  pub kept : (is_preparing old.state || is_submitting old.state) ≡ false → new ≡ old

module _ (a : StopArgs) (now : ℕ) (db : Db) (keyed : IsKeyed job_id_of db.jobs) (id : String)
    (j : AutomationJob) (found : get_job id db ≡ some j) where
  chosen :
      find_by job_id_of id (select_ordered by_id may_have_submitted db.jobs)
      ≡ (if is_submitting j.state then some j else none)
  chosen = find_by-select_ordered job_id_of id by_id may_have_submitted db.jobs j keyed found

  revoked :
      (k : AutomationJob)
      → get_job id (mark_submitting a now db) ≡ some k
      → get_job id (engage a now (mark_submitting a now db))
        ≡ some (updated is_interrupted_early (as_revoked now) k)
  revoked k h = rw (
    (engage-jobs a now (mark_submitting a now db)).0,
    find_by-update_where job_id_of is_interrupted_early (as_revoked now) (λ r. refl) id
        (mark_submitting a now db).jobs,
    h,
  )

  doubtful_row :
      (k : AutomationJob)
      → k.state ≡ ambiguous_submission
      → updated is_interrupted_early (as_revoked now) k ≡ k
  doubtful_row k h = rw h

  settled_row :
      (k : AutomationJob)
      → is_submitting j.state ≡ true
      → k.state ≡ ambiguous_submission
      → j.fencing_generation < k.fencing_generation
      → Halted j k
  settled_row k submitting doubtful up = record {
    settled = λ h. doubtful;
    returned = λ h. ground arith;
    fenced = λ h. up;
    kept = λ h. ground arith;
  }

  early_row :
      is_submitting j.state ≡ false → Halted j (updated is_interrupted_early (as_revoked now) j)
  early_row early = elim (Bool-cases (is_preparing j.state)) [
    | inl preparing ↦ rw preparing (record {
      settled = λ h. cc (early, h);
      returned = λ h. refl;
      fenced = λ h. omega arith;
      kept = λ h. ground arith;
    })
    | inr idle ↦ rw idle (record {
      settled = λ h. cc (early, h);
      returned = λ h. cc (idle, h);
      fenced = λ h. ground arith;
      kept = λ h. refl;
    })
  ]

  halts_job :
      (j' : AutomationJob) × (get_job id (engage a now (mark_submitting a now db)) ≡ some j')
      × Halted j j'
  halts_job = elim (Bool-cases (is_submitting j.state)) [
    | inl submitting ↦
        let (k, found', doubtful, up) =
          mark_each-settles (stop_args a.fresh) now (stop-Fits a now) id
            (select_ordered by_id may_have_submitted db.jobs) db j keyed (rw submitting at chosen)
            found submitting in
        (
          k,
          revoked k found' ∙ ap some (doubtful_row k doubtful),
          settled_row k submitting doubtful up,
        )
    | inr early ↦
        let found' =
          mark_each-other (stop_args a.fresh) now (stop-Fits a now) id
            (select_ordered by_id may_have_submitted db.jobs) db (rw early at chosen)
          ∙ found in
        (updated is_interrupted_early (as_revoked now) j, revoked j found', early_row early)
  ]

-- What the emergency stop has made of the database.
pub record IsHalted (before after_it : Db) : Type 0 where
  pub stopped : after_it.control.is_stopped ≡ true
  pub paused : after_it.control.is_paused ≡ true
  pub released : after_it.control.manual_takeover_owner ≡ none
  pub jobs :
      (id : String) (j : AutomationJob)
      → get_job id before ≡ some j
      → (j' : AutomationJob) × (get_job id after_it ≡ some j') × Halted j j'

-- An emergency stop by a caller whose ownership is not tested succeeds. Afterwards automation is stopped and
-- paused, the takeover is released, every job that may have been submitted is in ambiguous_submission and
-- every job in preparation is back in ready, each under a greater fencing generation, and every other job
-- is as it was. It is assumed that no two jobs have one id.
pub emergency_stop-IsHalted :
    (a : StopArgs) (now : ℕ) (utc : Readings) (db : Db)
    → IsKeyed job_id_of db.jobs
    → a.expected_owner ≡ none
    → ((n : ℕ) × ((emergency_stop a now utc db).1 ≡ some n))
      × IsHalted db (emergency_stop a now utc db).0
unfolding emergency_stop
emergency_stop-IsHalted a now utc db keyed anyone =
    let control = (engage-jobs a now (mark_submitting a now db)).1 in
    simp anyone (
      (_, refl),
      record {
        stopped = ap (λ (c : RuntimeControl). c.is_stopped) control;
        paused = ap (λ (c : RuntimeControl). c.is_paused) control;
        released = ap (λ (c : RuntimeControl). c.manual_takeover_owner) control;
        jobs = halts_job a now db keyed;
      },
    )

-- An emergency stop by a caller whose ownership of the takeover is tested is always rejected, with the
-- database as it was, even where that caller is the owner and the takeover has not expired: the third test
-- reads the row after the stop has released the takeover.
pub emergency_stop-rejects_owner :
    (a : StopArgs) (now : ℕ) (utc : Readings) (db : Db) (owner : String)
    → a.expected_owner ≡ some owner
    → emergency_stop a now utc db ≡ (db, none)
unfolding emergency_stop
emergency_stop-rejects_owner a now utc db owner tested =
    third_test _ (is_wrong_owner a.expected_owner utc.first db)
      (is_wrong_owner a.expected_owner utc.second (mark_submitting a now db))
      (is_wrong_owner a.expected_owner utc.third (engage a now (mark_submitting a now db)))
      (simp tested (simp released))
  where
    released : (engage a now (mark_submitting a now db)).control.manual_takeover_owner ≡ none
    released =
        ap (λ (c : RuntimeControl). c.manual_takeover_owner)
          (engage-jobs a now (mark_submitting a now db)).1

    third_test :
        {x : Db × Option ℕ} (y : Db × Option ℕ) (p q r : Bool)
        → r ≡ true
        → (if p then x else if q then x else if r then x else y) ≡ x
    third_test y true q r h = refl
    third_test y false true r h = refl
    third_test y false false r h = rw h
