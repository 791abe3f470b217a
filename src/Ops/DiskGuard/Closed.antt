-- ===== src/Ops/DiskGuard/Closed.antt =====
-- The disk guard fails closed.
use job_applier.Base.{
  ℕ, ◌*◌, ◌≡◌, ◌⊎◌, refl, ap, ◌∙◌, String, Bool, true, false, ◌&&◌, Option, none, some, List, [],
  ◌∷◌, ◌==◌, if◌then◌else◌, inl, inr, arith, leb,
}
use job_applier.Queue.Db.{Db}
use job_applier.Queue.Events.{event}
use job_applier.Queue.Events.Frame.{record_event-Same}
use job_applier.Queue.Control.{set_runtime_pause}
use job_applier.Queue.Control.Moves.{set_runtime_pause-sets}
use job_applier.Queue.Outbox.{enqueue_notification}
use job_applier.Queue.Outbox.Moves.{enqueue_notification-control, enqueue_notification-jobs}
use job_applier.Ops.DiskGuard.{
  Usage, Thresholds, lack_of, or_next, check_disk_pressure, engage_pause,
  enforce_disk_pressure_guard,
}

-- The bytes and the share of one volume.
abbrev pub fits : Thresholds → Usage → Bool
fits t u =
    leb t.min_free_bytes u.free
    && (if u.total == 0
        then t.min_free_percent == 0
        else leb (t.min_free_percent * u.total) (u.free * 100))

lack_of-room :
    (t : Thresholds) (u : Usage)
    → ((lack_of t (some u) ≡ none) × (fits t u ≡ true))
      ⊎ ((free : ℕ) × (lack_of t (some u) ≡ some free) × (fits t u ≡ false))
lack_of-room t u = ground arith

-- Every target was read, and has both the bytes and the share of its volume.
abbrev pub has_room : Thresholds → List (Option Usage) → Bool
has_room t [] = true
has_room t (none ∷ targets) = false
has_room t (some u ∷ targets) = fits t u && has_room t targets

check-cons :
    (t : Thresholds) (targets : List (Option Usage)) (lack : Option ℕ) (fit : Bool)
    → lack ≡ none
    → fit ≡ true
    → ((check_disk_pressure t targets ≡ none) × (has_room t targets ≡ true))
      ⊎ ((free : ℕ) × (check_disk_pressure t targets ≡ some free) × (has_room t targets ≡ false))
    → ((or_next lack (check_disk_pressure t targets) ≡ none) × ((fit && has_room t targets) ≡ true))
      ⊎ ((free : ℕ) × (or_next lack (check_disk_pressure t targets) ≡ some free)
          × ((fit && has_room t targets) ≡ false))
check-cons t targets lack fit e room h = rw e (rw room h)

check-has_room :
    (t : Thresholds) (targets : List (Option Usage))
    → ((check_disk_pressure t targets ≡ none) × (has_room t targets ≡ true))
      ⊎ ((free : ℕ) × (check_disk_pressure t targets ≡ some free) × (has_room t targets ≡ false))
unfolding check_disk_pressure
check-has_room t [] = inl (refl, refl)
check-has_room t (none ∷ targets) = inr (0, refl, refl)
check-has_room t (some u ∷ targets) = elim (lack_of-room t u) [
  | inl (e, room) ↦
      check-cons t targets (lack_of t (some u)) (fits t u) e room (check-has_room t targets)
  | inr (free, e, full) ↦ inr (free, rw e, rw full)
]

engage_pause-pauses :
    (message : ℕ → String) (fresh fresh_item : String) (now utc free : ℕ) (db : Db)
    → ((engage_pause message fresh fresh_item now utc free db).control.is_paused ≡ true)
      × ((engage_pause message fresh fresh_item now utc free db).jobs ≡ db.jobs)
unfolding engage_pause
engage_pause-pauses message fresh fresh_item now utc free db =
    let paused = (set_runtime_pause true none now utc db).0 in
    let text = message free in
    let alerted =
      enqueue_notification "system_failure" text "critical" none none none (some "critical") fresh
        fresh_item now paused in
    let e = event none none "disk_pressure_guard_triggered" "ERROR" "disk_guard" in
    (
      ap (λ c. c.is_paused)
            ((record_event-Same e now alerted).control
              ∙ enqueue_notification-control "system_failure" text "critical" none none none
                  (some "critical") fresh fresh_item now paused)
          ∙ (set_runtime_pause-sets now utc db).0,
      (record_event-Same e now alerted).jobs
          ∙ enqueue_notification-jobs "system_failure" text "critical" none none none
              (some "critical") fresh fresh_item now paused
          ∙ (set_runtime_pause-sets now utc db).1,
    )

-- The disk guard fails closed. Either every target was read and has the free bytes and the free share that
-- are asked for, and then the answer is True and nothing changes; or one does not, and then the answer is
-- False, automation is paused and the jobs are as they were.
pub enforce_disk_pressure_guard-outcome :
    (t : Thresholds) (targets : List (Option Usage)) (message : ℕ → String)
    (fresh fresh_item : String) (now utc : ℕ) (db : Db)
    → ((has_room t targets ≡ true)
        × (enforce_disk_pressure_guard t targets message fresh fresh_item now utc db ≡ (db, true)))
      ⊎ ((has_room t targets ≡ false)
          × ((enforce_disk_pressure_guard t targets message fresh fresh_item now utc db).1 ≡ false)
          × ((enforce_disk_pressure_guard t targets message fresh fresh_item now utc
                db).0.control.is_paused
              ≡ true)
          × ((enforce_disk_pressure_guard t targets message fresh fresh_item now utc db).0.jobs
              ≡ db.jobs))
unfolding enforce_disk_pressure_guard
enforce_disk_pressure_guard-outcome t targets message fresh fresh_item now utc db =
    elim (check-has_room t targets) [
      | inl (e, room) ↦ inl (room, rw e)
      | inr (free, e, full) ↦ inr (
        full,
        rw e,
        rw e (engage_pause-pauses message fresh fresh_item now utc free db).0,
        rw e (engage_pause-pauses message fresh fresh_item now utc free db).1,
      )
    ]
