-- ===== src/Queue/Outbox/Pending.antt =====
-- The alerts that are to be sent, as the sender gets them.
use job_applier.Base.{
  ◌⊎◌, ◌||◌, Option, some, none, is_none, not_after, eq_iff, ℕ, zero, suc, ◌≡◌, ◌≤◌, refl, ◌&&◌,
  not, Bool, true, false, List, [], ◌∷◌, arith, ltb, Bool-cases, inl, inr,
}
use job_applier.Queue.Db.{Db, OutboxItem}
use job_applier.Queue.Outbox.{
  is_pending, insert_by_age, pending_by_age, take, get_pending_notifications,
}

abbrev pub all_pass : (OutboxItem → Bool) → List OutboxItem → Bool
all_pass p [] = true
all_pass p (o ∷ os) = p o && all_pass p os

abbrev pub starts_from : ℕ → List OutboxItem → Bool
starts_from n [] = true
starts_from n (o ∷ os) = not (ltb o.created_at n)

-- An alert that waits to be sent and, where that is asked, has no time of its next try or one that has come.
pub record IsDue (due_only : Bool) (now : ℕ) (o : OutboxItem) : Type 0 where
  pub pending : o.status ≡ "pending"
  pub due :
      due_only ≡ true
      → (o.next_retry_at ≡ none) ⊎ ((t : ℕ) × (o.next_retry_at ≡ some t) × (t ≤ now))

abbrev pub AllDue : Bool → ℕ → List OutboxItem → Type 0
AllDue due_only now [] = Unit
AllDue due_only now (o ∷ os) = IsDue due_only now o × AllDue due_only now os

is_pending-IsDue :
    (due_only : Bool) (now : ℕ) (o : OutboxItem)
    → is_pending due_only now o ≡ true
    → IsDue due_only now o
unfolding is_pending
is_pending-IsDue due_only now o h = record {
  pending = ground (arith, eq_iff o.status "pending");
  due = λ e. due_time o.next_retry_at (ground arith);
}
  where
    due_time :
        (t : Option ℕ)
        → (is_none t || not_after t now) ≡ true
        → (t ≡ none) ⊎ ((at : ℕ) × (t ≡ some at) × (at ≤ now))
    due_time none k = inl refl
    due_time (some at) k = inr (at, refl, ground arith)

all_pass-AllDue :
    (due_only : Bool) (now : ℕ) (os : List OutboxItem)
    → all_pass (is_pending due_only now) os ≡ true
    → AllDue due_only now os
all_pass-AllDue due_only now [] h = tt
all_pass-AllDue due_only now (o ∷ os) h =
    (is_pending-IsDue due_only now o (ground arith), all_pass-AllDue due_only now os (ground arith))

-- The oldest first.
abbrev pub is_by_age : List OutboxItem → Bool
is_by_age [] = true
is_by_age (o ∷ os) = starts_from o.created_at os && is_by_age os

abbrev pub length : List OutboxItem → ℕ
length [] = 0
length (o ∷ os) = suc (length os)

starts_from-insert_by_age :
    (n : ℕ) (o : OutboxItem) (os : List OutboxItem)
    → starts_from n os ≡ true
    → ltb o.created_at n ≡ false
    → starts_from n (insert_by_age o os) ≡ true
starts_from-insert_by_age n o [] h k = ground arith
starts_from-insert_by_age n o (p ∷ ps) h k = ground arith

is_by_age-insert_by_age :
    (o : OutboxItem) (os : List OutboxItem)
    → is_by_age os ≡ true
    → is_by_age (insert_by_age o os) ≡ true
is_by_age-insert_by_age o [] h = refl
is_by_age-insert_by_age o (p ∷ ps) h = elim (Bool-cases (ltb p.created_at o.created_at)) [
  | inl e ↦
      ground (arith, starts_from-insert_by_age p.created_at o ps, is_by_age-insert_by_age o ps)
  | inr e ↦ ground arith
]

all_pass-insert_by_age :
    (p : OutboxItem → Bool) (o : OutboxItem) (os : List OutboxItem)
    → p o ≡ true
    → all_pass p os ≡ true
    → all_pass p (insert_by_age o os) ≡ true
all_pass-insert_by_age p o [] h k = rw h
all_pass-insert_by_age p o (q ∷ qs) h k = ground (arith, all_pass-insert_by_age p o qs)

is_by_age-pending_by_age :
    (p : OutboxItem → Bool) (os : List OutboxItem) → is_by_age (pending_by_age p os) ≡ true
is_by_age-pending_by_age p [] = refl
is_by_age-pending_by_age p (o ∷ os) = elim (Bool-cases (p o)) [
  | inl e ↦ rw e (is_by_age-insert_by_age o (pending_by_age p os) (is_by_age-pending_by_age p os))
  | inr e ↦ rw e (is_by_age-pending_by_age p os)
]

all_pass-pending_by_age :
    (p : OutboxItem → Bool) (os : List OutboxItem) → all_pass p (pending_by_age p os) ≡ true
all_pass-pending_by_age p [] = refl
all_pass-pending_by_age p (o ∷ os) = elim (Bool-cases (p o)) [
  | inl e ↦ rw e (all_pass-insert_by_age p o (pending_by_age p os) e (all_pass-pending_by_age p os))
  | inr e ↦ rw e (all_pass-pending_by_age p os)
]

starts_from-take :
    (k n : ℕ) (os : List OutboxItem) → starts_from n os ≡ true → starts_from n (take k os) ≡ true
starts_from-take zero n os h = refl
starts_from-take (suc k) n [] h = refl
starts_from-take (suc k) n (o ∷ os) h = h

is_by_age-take : (k : ℕ) (os : List OutboxItem) → is_by_age os ≡ true → is_by_age (take k os) ≡ true
is_by_age-take zero os h = refl
is_by_age-take (suc k) [] h = refl
is_by_age-take (suc k) (o ∷ os) h =
    ground (arith, starts_from-take k o.created_at os, is_by_age-take k os)

all_pass-take :
    (p : OutboxItem → Bool) (k : ℕ) (os : List OutboxItem)
    → all_pass p os ≡ true
    → all_pass p (take k os) ≡ true
all_pass-take p zero os h = refl
all_pass-take p (suc k) [] h = refl
all_pass-take p (suc k) (o ∷ os) h = ground (arith, all_pass-take p k os)

length-take : (k : ℕ) (os : List OutboxItem) → length (take k os) ≤ k
length-take zero os = omega arith
length-take (suc k) [] = omega arith
length-take (suc k) (o ∷ os) = omega (arith, length-take k os)

-- Every alert that the sender gets has the status pending and, where the sender asks for those that are due, no
-- time of its next try or one that has come; the oldest come first, and there are no more than it asked for.
pub get_pending_notifications-ordered :
    (limit : ℕ) (due_only : Bool) (now : ℕ) (db : Db)
    → AllDue due_only now (get_pending_notifications limit due_only now db)
      × (is_by_age (get_pending_notifications limit due_only now db) ≡ true)
      × (length (get_pending_notifications limit due_only now db) ≤ limit)
unfolding get_pending_notifications
get_pending_notifications-ordered limit due_only now db =
    let due = pending_by_age (is_pending due_only now) db.outbox in
    (
      all_pass-AllDue due_only now (take limit due) (
          all_pass-take (is_pending due_only now) limit due
            (all_pass-pending_by_age (is_pending due_only now) db.outbox)),
      is_by_age-take limit due (is_by_age-pending_by_age (is_pending due_only now) db.outbox),
      length-take limit due,
    )
