-- ===== src/Queue/Enqueue/Idempotent.antt =====
-- Asking twice for the same application.
use job_applier.Base.{
  ℕ, ◌≡◌, refl, ap, ◌∙◌, ◌&&◌, not, Bool, true, false, String, Option, none, some, List, [], ◌∷◌,
  ◌++◌, best_where, Bool-cases, inl, inr, eq_refl, is_some, ℤ, ◌<>◌,
}
use job_applier.Queue.Db.{AutomationJob, Db, ok, get_job, get_application}
use job_applier.Queue.Events.{event}
use job_applier.Queue.Events.Frame.{record_event-Same}
use job_applier.Queue.Enqueue.{
  newer, is_open, new_job, insert_job, open_or_insert, enqueue_checked, enqueue_job,
}

best_where-append :
    {A : Type 0} (better : A → A → Bool) (p : A → Bool) (xs : List A) (y : A)
    → best_where better p xs ≡ none
    → p y ≡ true
    → best_where better p (xs ++ y ∷ []) ≡ some y
best_where-append better p [] y e h = rw h
best_where-append better p (x ∷ xs) y e h = elim (Bool-cases (p x)) [
  | inl fits ↦ cc (rw fits at e)
  | inr fails ↦ rw fails (best_where-append better p xs y (rw fails at e) h)
]

ok_injective : {a b : AutomationJob} → ok a ≡ ok b → a ≡ b
ok_injective e = cc

insert_job-open :
    (app_id : String) (job : AutomationJob) (now : ℕ) (db : Db) (j : AutomationJob)
    → is_open app_id job ≡ true
    → best_where newer (is_open app_id) db.jobs ≡ none
    → (insert_job job now db).1 ≡ ok j
    → best_where newer (is_open app_id) (insert_job job now db).0.jobs ≡ some j
unfolding insert_job
insert_job-open app_id job now db j is_new e h = elim (Bool-cases (is_some (get_job job.id db))) [
  | inl taken ↦ cc (rw taken at h)
  | inr free ↦ elim (Bool-cases (is_some (get_application job.app_id db))) [
    | inr missing ↦ cc (rw (free, missing) at h)
    | inl there ↦
        simp (free, there)
          (ap (best_where newer (is_open app_id))
              (record_event-Same
                (event (some job.id) (some job.app_id) "job_enqueued" "INFO" "enqueue") now
                (record db { jobs = db.jobs ++ job ∷ [] })).jobs
            ∙ best_where-append newer (is_open app_id) db.jobs job e is_new
            ∙ ap some (ok_injective (rw (free, there) at h)))
  ]
]

-- The open job of the application after the part under the lock, where it answers with a job.
open_or_insert-open :
    (app_id : String) (job : AutomationJob) (now : ℕ) (db : Db) (o : Option AutomationJob)
    (j : AutomationJob)
    → is_open app_id job ≡ true
    → best_where newer (is_open app_id) db.jobs ≡ o
    → (open_or_insert o job now db).1 ≡ ok j
    → best_where newer (is_open app_id) (open_or_insert o job now db).0.jobs ≡ some j
unfolding open_or_insert
open_or_insert-open app_id job now db (some old) j is_new e h = e ∙ ap some (ok_injective h)
open_or_insert-open app_id job now db none j is_new e h =
    insert_job-open app_id job now db j is_new e h

enqueue_checked-open :
    (app_id adapter : String) (priority : ℤ) (max_retries : ℕ) (fresh : String) (now : ℕ) (db : Db)
    (j : AutomationJob)
    → (enqueue_checked app_id adapter priority max_retries fresh now db).1 ≡ ok j
    → best_where newer
        (is_open app_id)
        (enqueue_checked app_id adapter priority max_retries fresh now db).0.jobs
      ≡ some j
unfolding enqueue_checked
enqueue_checked-open app_id adapter priority max_retries fresh now db j h =
    open_or_insert-open app_id
      (new_job ("job_" <> app_id <> "_" <> fresh) app_id adapter priority max_retries now) now db
      (best_where newer (is_open app_id) db.jobs) j (rw (eq_refl app_id)) refl h

enqueue_checked-found :
    (app_id adapter : String) (priority : ℤ) (max_retries : ℕ) (fresh : String) (now : ℕ) (db : Db)
    (j : AutomationJob)
    → best_where newer (is_open app_id) db.jobs ≡ some j
    → enqueue_checked app_id adapter priority max_retries fresh now db ≡ (db, ok j)
unfolding enqueue_checked
enqueue_checked-found app_id adapter priority max_retries fresh now db j h = rw h

-- Enqueuing is idempotent. Where an enqueue answered with a job, a second enqueue of the same application, with
-- whatever adapter, priority and clock and without the artifact check or with artifacts in place, answers with
-- that same job and changes nothing.
pub enqueue_job-idempotent :
    (app_id adapter : String) (priority : ℤ) (max_retries : ℕ) (verify_artifacts has_art : Bool)
    (fresh : String) (now : ℕ) (db : Db) (j : AutomationJob)
    → (enqueue_job app_id adapter priority max_retries verify_artifacts has_art fresh now db).1
      ≡ ok j
    → (adapter' : String) (priority' : ℤ) (max_retries' : ℕ) (verify' has_art' : Bool)
    → (verify' && not has_art') ≡ false
    → (fresh' : String) (now' : ℕ)
    → enqueue_job app_id adapter' priority' max_retries' verify' has_art' fresh' now'
        (enqueue_job app_id adapter priority max_retries verify_artifacts has_art fresh now db).0
      ≡ (
        (enqueue_job app_id adapter priority max_retries verify_artifacts has_art fresh now db).0,
        ok j,
      )
unfolding enqueue_job
enqueue_job-idempotent app_id adapter priority max_retries verify_artifacts has_art fresh now db j h
      adapter' priority' max_retries' verify' has_art' passes fresh' now' =
    elim (Bool-cases (verify_artifacts && not has_art)) [
      | inl blocked ↦ cc (rw blocked at h)
      | inr checked ↦
          simp (checked, passes)
            (enqueue_checked-found app_id adapter' priority' max_retries' fresh' now' _ j (
              enqueue_checked-open app_id adapter priority max_retries fresh now db j
                (rw checked at h)))
    ]
