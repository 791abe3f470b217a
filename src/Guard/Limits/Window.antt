-- ===== src/Guard/Limits/Window.antt =====
-- The submissions of a window, counted.
use job_applier.Base.{
  str_eq, leb, false, ◌&&◌, ℕ, suc, ◌+◌, ◌-◌, ◌*◌, ◌≡◌, ◌≤◌, refl, sym, ◌∙◌, ap, Bool, true, String,
  Option, none, some, List, [], ◌∷◌, arith, if◌then◌else◌, update_where, count_where,
}
use job_applier.Queue.Db.{Db, ApplicationAttempt}
use job_applier.Queue.Events.Steady.{IsSteady, results}
use job_applier.Guard.Limits.{applied_since, get_submissions_in_window}

abbrev counts : ℕ → ApplicationAttempt → Bool
counts cutoff a = applied_since cutoff a.outcome a.completed_at

abbrev count_results : ℕ → List (Option String × Option ℕ) → ℕ
count_results cutoff [] = 0
count_results cutoff (r ∷ rest) =
    if applied_since cutoff r.0 r.1
    then suc (count_results cutoff rest)
    else count_results cutoff rest

count_where-results :
    (cutoff : ℕ) (xs : List ApplicationAttempt)
    → count_where (counts cutoff) xs ≡ count_results cutoff (results xs)
count_where-results cutoff [] = refl
count_where-results cutoff (x ∷ xs) = rw (count_where-results cutoff xs)

-- The count depends on the results only.
pub window-steady :
    {a b : Db} (hours now : ℕ)
    → IsSteady a b
    → get_submissions_in_window hours now b ≡ get_submissions_in_window hours now a
window-steady {a} {b} hours now h =
    count_where-results (now - hours * 3600) b.attempts
    ∙ ap (count_results (now - hours * 3600)) h.same
    ∙ sym (count_where-results (now - hours * 3600) a.attempts)

since_later :
    (c d : ℕ) (outcome : Option String) (t : Option ℕ)
    → c ≤ d
    → applied_since d outcome t ≡ true
    → applied_since c outcome t ≡ true
since_later c d outcome none h e = cc e
since_later c d outcome (some t) h e = ground arith

count-later :
    (c d : ℕ) (xs : List ApplicationAttempt)
    → c ≤ d
    → count_where (counts d) xs ≤ count_where (counts c) xs
count-later c d [] h = omega arith
count-later c d (x ∷ xs) h =
    ground (arith, count-later c d xs h, since_later c d x.outcome x.completed_at h)

-- A later window holds no more.
pub window-later :
    (hours earlier later : ℕ) (db : Db)
    → earlier ≤ later
    → get_submissions_in_window hours later db ≤ get_submissions_in_window hours earlier db
window-later hours earlier later db h =
    count-later (earlier - hours * 3600) (later - hours * 3600) db.attempts (omega arith)

-- A submission: an attempt that was completed as applied, at the cutoff or later.
abbrev pub is_sent : ℕ → Option String → Option ℕ → Bool
is_sent cutoff (some o) (some t) = str_eq o "applied" && leb cutoff t
is_sent cutoff (some o) none = false
is_sent cutoff none t = false

-- The submissions among the attempts.
abbrev pub sent_since : ℕ → List ApplicationAttempt → ℕ
sent_since cutoff [] = 0
sent_since cutoff (a ∷ rest) =
    (if is_sent cutoff a.outcome a.completed_at then 1 else 0) + sent_since cutoff rest

is_sent-applied :
    (cutoff : ℕ) (o : Option String) (t : Option ℕ) → applied_since cutoff o t ≡ is_sent cutoff o t
is_sent-applied cutoff none none = refl
is_sent-applied cutoff none (some t) = refl
is_sent-applied cutoff (some o) none = refl
is_sent-applied cutoff (some o) (some t) = refl

sent-counts :
    (cutoff : ℕ) (xs : List ApplicationAttempt)
    → count_where (counts cutoff) xs ≡ sent_since cutoff xs
sent-counts cutoff [] = refl
sent-counts cutoff (x ∷ xs) =
    ground (arith, is_sent-applied cutoff x.outcome x.completed_at, sent-counts cutoff xs)

pub window-sent :
    (hours now : ℕ) (db : Db)
    → get_submissions_in_window hours now db ≡ sent_since (now - hours * 3600) db.attempts
window-sent hours now db = sent-counts (now - hours * 3600) db.attempts

-- An update adds no more than the rows that it writes.
pub count-update :
    (cutoff : ℕ) (p : ApplicationAttempt → Bool) (f : ApplicationAttempt → ApplicationAttempt)
    (xs : List ApplicationAttempt)
    → count_where (counts cutoff) (update_where p f xs)
      ≤ count_where (counts cutoff) xs + count_where p xs
count-update cutoff p f [] = omega arith
count-update cutoff p f (x ∷ xs) = ground (arith, count-update cutoff p f xs)
