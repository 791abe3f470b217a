-- ===== src/Queue/Intent/Outcome.antt =====
-- The durable intent to submit is written as a whole or not at all.
use job_applier.Base.{
  ℕ, ◌+◌, ◌<◌, ◌≡◌, ◌⊎◌, refl, ◌∙◌, ap, Bool, true, false, String, some, arith, IsKeyed,
  update_where, count_where, count_where-keyed, Bool-cases, Option-cases, inl, inr, ◌==◌,
  if◌then◌else◌, passes?, find_by-update_where,
}
use job_applier.Queue.State.{submit_intent}
use job_applier.Queue.Db.{
  AutomationJob, ApplicationAttempt, Db, get_job, job_id_of, get_attempt, attempt_id_of,
}
use job_applier.Queue.Events.Frame.{record_event-Same}
use job_applier.Queue.Events.Attempts.{KeepsIntents, record_event-KeepsIntents}
use job_applier.Queue.Transition.Attempts.{transition_job-KeepsIntents}
use job_applier.Queue.Transition.{transition_job}
use job_applier.Queue.Transition.Outcome.{IsMoved, transition_job-IsMoved, transition_job-false}
use job_applier.Queue.Intent.{may_mark, mark_intent, intent_transition, record_submit_intent}

-- What is written when the intent is granted.
pub record IntentOf (attempt_id job_id worker_id : String) (generation now : ℕ)
    (before after_it : Db) : Type 0 where
  -- the job before, which the worker owned, with a lease that outlasts the margin
  pub old : AutomationJob
  pub found : get_job job_id before ≡ some old
  pub owner : old.lease_owner ≡ some worker_id
  pub current : old.fencing_generation ≡ generation
  pub alive : old.is_cancelled ≡ false
  pub until : ℕ
  pub leased : old.lease_expires_at ≡ some until
  pub lasting : now + 20 < until
  -- the job after, still the worker's
  pub new : AutomationJob
  pub there : get_job job_id after_it ≡ some new
  pub state : new.state ≡ submit_intent
  pub moved : IsMoved (intent_transition job_id worker_id generation) old new
  -- the attempt after
  pub attempt : ApplicationAttempt
  pub stored : get_attempt attempt_id after_it ≡ some attempt
  pub marked : attempt.submit_intent_at ≡ some now

module _ (attempt_id job_id worker_id : String) (generation now : ℕ) where
  marks : Db → Db
  marks db = record db {
    attempts =
        update_where (may_mark attempt_id job_id worker_id generation)
          (λ a. record a { submit_intent_at = some now }) db.attempts;
  }

  mark_intent-false :
      (before : Db) (r : Db × Bool)
      → (r.1 ≡ false → r.0 ≡ before)
      → (mark_intent attempt_id job_id worker_id generation now before r).1 ≡ false
      → mark_intent attempt_id job_id worker_id generation now before r ≡ (before, false)
  unfolding mark_intent
  mark_intent-false before (db, false) same h = rw (same refl)
  mark_intent-false before (db, true) same h =
      elim (Bool-cases
        (count_where (may_mark attempt_id job_id worker_id generation) db.attempts == 1)) [
          | inl e ↦ cc (rw e at h)
          | inr e ↦ rw e
        ]

  mark_intent-true :
      (before : Db) (r : Db × Bool)
      → (mark_intent attempt_id job_id worker_id generation now before r).1 ≡ true
      → (r.1 ≡ true)
        × (count_where (may_mark attempt_id job_id worker_id generation) r.0.attempts ≡ 1)
        × ((mark_intent attempt_id job_id worker_id generation now before r).0.jobs ≡ r.0.jobs)
        × KeepsIntents
            (marks r.0)
            (mark_intent attempt_id job_id worker_id generation now before r).0
  unfolding mark_intent marks
  mark_intent-true before (db, false) h = cc h
  mark_intent-true before (db, true) h =
      elim (Bool-cases
        (count_where (may_mark attempt_id job_id worker_id generation) db.attempts == 1)) [
          | inl e ↦ (
            refl,
            ground (arith, e),
            rw e (record_event-Same _ now _).jobs,
            rw e (record_event-KeepsIntents _ now _),
          )
          | inr e ↦ cc (rw e at h)
        ]

  mark_count :
      (db : Db)
      → IsKeyed attempt_id_of db.attempts
      → count_where (may_mark attempt_id job_id worker_id generation) db.attempts ≡ (
          if passes? (may_mark attempt_id job_id worker_id generation) (get_attempt attempt_id db)
          then 1
          else 0)
  mark_count db keyed =
      count_where-keyed attempt_id_of attempt_id (may_mark attempt_id job_id worker_id generation)
        (λ x h. ground arith) db.attempts keyed

  -- The attempt that the one mark is on.
  marks-stored :
      (db : Db)
      → IsKeyed attempt_id_of db.attempts
      → count_where (may_mark attempt_id job_id worker_id generation) db.attempts ≡ 1
      → (a : ApplicationAttempt) × (get_attempt attempt_id (marks db) ≡ some a)
        × (a.submit_intent_at ≡ some now)
  unfolding marks
  marks-stored db keyed one = elim (Option-cases (get_attempt attempt_id db)) [
    | inl e ↦ cc (rw (mark_count db keyed, e) at one)
    | inr (a, e) ↦
        let passed : may_mark attempt_id job_id worker_id generation a ≡ true =
          ground (arith, rw (mark_count db keyed, e) at one) in
        (
          record a { submit_intent_at = some now },
          rw (
            find_by-update_where attempt_id_of (may_mark attempt_id job_id worker_id generation)
                (λ a. record a { submit_intent_at = some now }) (λ a. refl) attempt_id db.attempts,
            e,
            passed,
          ),
          refl,
        )
  ]

  marked_fails :
      (b : ApplicationAttempt) (at : ℕ)
      → b.submit_intent_at ≡ some at
      → may_mark attempt_id job_id worker_id generation b ≡ false
  marked_fails b at e = ground arith

  module _ (db : Db) (keyed : IsKeyed job_id_of db.jobs)
      (attempts_keyed : IsKeyed attempt_id_of db.attempts) where
    granted :
        (record_submit_intent attempt_id job_id worker_id generation now db).1 ≡ true
        → IntentOf attempt_id job_id worker_id generation now db
            (record_submit_intent attempt_id job_id worker_id generation now db).0
    unfolding record_submit_intent
    granted h =
        let t = intent_transition job_id worker_id generation in
        let (done, one, jobs, kept) = mark_intent-true db (transition_job t now db) h in
        let (old, found, mover, new, there, moved) = transition_job-IsMoved t now db keyed done in
        let (until, leased, lasting) = mover.live refl in
        let (a, here_is, marked) =
          marks-stored (transition_job t now db).0
            ((transition_job-KeepsIntents t now db).keyed attempts_keyed) one in
        let (a', there_is, same) = kept.at attempt_id a here_is in
        record {
          old = old;
          found = found;
          owner = mover.owner;
          current = mover.generation;
          alive = mover.alive;
          until = until;
          leased = leased;
          lasting = lasting;
          new = new;
          there = rw jobs there;
          state = moved.state;
          moved = moved;
          attempt = a';
          stored = there_is;
          marked = same ∙ marked;
        }

    refused :
        (record_submit_intent attempt_id job_id worker_id generation now db).1 ≡ false
        → record_submit_intent attempt_id job_id worker_id generation now db ≡ (db, false)
    unfolding record_submit_intent
    refused h =
        let t = intent_transition job_id worker_id generation in
        mark_intent-false db (transition_job t now db)
          (λ e. ap (λ (r : Db × Bool). r.0) (transition_job-false t now db keyed e)) h

    -- The intent to submit is written as a whole or not at all. Either the answer is True, and then the worker
    -- owned the job under the generation given, the job was not cancelled and its lease lasted more than 20
    -- seconds, and now the job is in submit_intent and the attempt bears the time; or the answer is False
    -- and the database is as it was, the state of the job included.
    -- It is assumed that no two jobs and no two attempts have one id.
    pub record_submit_intent-outcome :
        (((record_submit_intent attempt_id job_id worker_id generation now db).1 ≡ true)
          × IntentOf attempt_id job_id worker_id generation now db
              (record_submit_intent attempt_id job_id worker_id generation now db).0)
        ⊎ (record_submit_intent attempt_id job_id worker_id generation now db ≡ (db, false))
    record_submit_intent-outcome =
        elim (Bool-cases (record_submit_intent attempt_id job_id worker_id generation now db).1) [
          | inl e ↦ inl (e, granted e)
          | inr e ↦ inr (refused e)
        ]

    -- No attempt gets a second intent: where it bears one, the answer is False and nothing changes.
    -- It is assumed that no two jobs and no two attempts have one id.
    pub record_submit_intent-once :
        (a : ApplicationAttempt) (at : ℕ)
        → get_attempt attempt_id db ≡ some a
        → a.submit_intent_at ≡ some at
        → record_submit_intent attempt_id job_id worker_id generation now db ≡ (db, false)
    unfolding record_submit_intent
    record_submit_intent-once a at found marked =
        refused
          (elim (Bool-cases
            (record_submit_intent attempt_id job_id worker_id generation now db).1) [
              | inr e ↦ e
              | inl e ↦
                  let t = intent_transition job_id worker_id generation in
                  let (done, one, jobs, kept) = mark_intent-true db (transition_job t now db) e in
                  let k = transition_job-KeepsIntents t now db in
                  let (b, there_is, same) = k.at attempt_id a found in
                  ground (
                    arith,
                    one,
                    rw (there_is, marked_fails b at (same ∙ marked)) at
                        (mark_count (transition_job t now db).0 (k.keyed attempts_keyed)),
                  )
            ])
