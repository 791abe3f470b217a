-- ===== src/Queue/Intent/Steady.antt =====
-- The submit intent leaves the results of the attempts alone.
use job_applier.Base.{
  ℕ, refl, Bool, true, false, String, some, count_where, ◌==◌, Bool-cases, inl, inr,
}
use job_applier.Queue.Db.{Db}
use job_applier.Queue.Events.Steady.{
  IsSteady, IsSteady-same, IsSteady-trans, IsSteady-update, record_event-IsSteady,
}
use job_applier.Queue.Transition.Steady.{transition_job-IsSteady}
use job_applier.Queue.Intent.{may_mark, mark_intent, intent_transition, record_submit_intent}

module _ (attempt_id job_id worker_id : String) (generation now : ℕ) where
  mark_intent-IsSteady :
      (before : Db) (x : Db × Bool)
      → IsSteady before x.0
      → IsSteady before (mark_intent attempt_id job_id worker_id generation now before x).0
  unfolding mark_intent
  mark_intent-IsSteady before (db, false) h = h
  mark_intent-IsSteady before (db, true) h =
      elim (Bool-cases
        (count_where (may_mark attempt_id job_id worker_id generation) db.attempts == 1)) [
          | inl e ↦ rw e (
              IsSteady-trans h (
                IsSteady-trans
                  (IsSteady-update (may_mark attempt_id job_id worker_id generation)
                    (λ a. record a { submit_intent_at = some now }) refl (λ x. refl) (λ x. refl)
                    (λ x. refl))
                  (record_event-IsSteady _ now _)))
          | inr e ↦ rw e (IsSteady-same refl)
        ]

  pub record_submit_intent-IsSteady :
      (db : Db) → IsSteady db (record_submit_intent attempt_id job_id worker_id generation now db).0
  unfolding record_submit_intent
  record_submit_intent-IsSteady db =
      mark_intent-IsSteady db _
        (transition_job-IsSteady (intent_transition job_id worker_id generation) now db)
