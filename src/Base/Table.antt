-- ===== src/Base/Table.antt =====
-- A table is the list of its rows. UPDATE with its row count, SELECT of one row by a key or by an
-- order, and their laws.
use Prim.Native.Nat.{ℕ, suc}
use Prim.Native.String.{String}
use mathlib.Core.Path.{◌≡◌, refl}
use mathlib.Core.Logic.{inl, inr}
use mathlib.Core.Bool.{Bool, true, false, ◌&&◌}
use mathlib.Core.Option.{Option, none, some}
use mathlib.Core.List.{List, [], ◌∷◌, ◌++◌}
use native.Mathlib.Omega.{arith}
use text.Mathlib.TextEquality.{eq_iff}
use text.Mathlib.TextPositions.{eq_refl}
use job_applier.Base.Tests.{if◌then◌else◌, Bool-cases, is_some}
use job_applier.Base.Text.{str_eq}

module _ {A : Type 0} where
  -- UPDATE … SET f WHERE p
  abbrev pub update_where : (A → Bool) → (A → A) → List A → List A
  update_where p f [] = []
  update_where p f (x ∷ xs) = (if p x then f x else x) ∷ update_where p f xs

  -- `cursor.rowcount` of an UPDATE with this WHERE
  abbrev pub count_where : (A → Bool) → List A → ℕ
  count_where p [] = 0
  count_where p (x ∷ xs) = if p x then suc (count_where p xs) else count_where p xs

  -- SELECT … WHERE p LIMIT 1: the first such row
  abbrev pub find_where : (A → Bool) → List A → Option A
  find_where p [] = none
  find_where p (x ∷ xs) = if p x then some x else find_where p xs

  -- SELECT … WHERE p
  abbrev pub select_where : (A → Bool) → List A → List A
  select_where p [] = []
  select_where p (x ∷ xs) = if p x then x ∷ select_where p xs else select_where p xs

  abbrev pub prefer : (A → A → Bool) → A → Option A → A
  prefer better x none = x
  prefer better x (some y) = if better y x then y else x

  -- SELECT … WHERE p ORDER BY … LIMIT 1: a row before which no other comes; of equals the first
  abbrev pub best_where : (A → A → Bool) → (A → Bool) → List A → Option A
  best_where better p [] = none
  best_where better p (x ∷ xs) =
      let rest = best_where better p xs in if p x then some (prefer better x rest) else rest

  -- SELECT … WHERE key = k, on a column of texts
  abbrev pub find_by : (A → String) → String → List A → Option A
  find_by key k [] = none
  find_by key k (x ∷ xs) = if str_eq (key x) k then some x else find_by key k xs

  -- What an UPDATE makes of one row.
  abbrev pub updated : (A → Bool) → (A → A) → A → A
  updated p f x = if p x then f x else x

  abbrev pub updated? : (A → Bool) → (A → A) → Option A → Option A
  updated? p f none = none
  updated? p f (some x) = some (updated p f x)

  abbrev pub passes? : (A → Bool) → Option A → Bool
  passes? p none = false
  passes? p (some x) = p x

  -- PRIMARY KEY: no two rows have one key.
  abbrev pub IsKeyed : (A → String) → List A → Type 0
  IsKeyed key [] = Unit
  IsKeyed key (x ∷ xs) = (find_by key (key x) xs ≡ none) × IsKeyed key xs

  pub updated-key :
      (key : A → String) (p : A → Bool) (f : A → A)
      → ((x : A) → key (f x) ≡ key x)
      → (x : A) → key (updated p f x) ≡ key x
  updated-key key p f keeps x = elim (Bool-cases (p x)) [ inl e ↦ rw e (keeps x) | inr e ↦ rw e ]

  -- An UPDATE that keeps the keys changes the row under a key and no other.
  pub find_by-update_where :
      (key : A → String) (p : A → Bool) (f : A → A)
      → ((x : A) → key (f x) ≡ key x)
      → (k : String) (xs : List A)
      → find_by key k (update_where p f xs) ≡ updated? p f (find_by key k xs)
  find_by-update_where key p f keeps k [] = refl
  find_by-update_where key p f keeps k (x ∷ xs) = elim (Bool-cases (str_eq (key x) k)) [
    | inl e ↦ rw (updated-key key p f keeps x, e)
    | inr e ↦ rw (updated-key key p f keeps x, e) (find_by-update_where key p f keeps k xs)
  ]

  pub update_where-IsKeyed :
      (key : A → String) (p : A → Bool) (f : A → A)
      → ((x : A) → key (f x) ≡ key x)
      → (xs : List A) → IsKeyed key xs
      → IsKeyed key (update_where p f xs)
  update_where-IsKeyed key p f keeps [] h = tt
  update_where-IsKeyed key p f keeps (x ∷ xs) h = (
    rw (updated-key key p f keeps x, find_by-update_where key p f keeps (key x) xs, h.0),
    update_where-IsKeyed key p f keeps xs h.1,
  )

  -- A row that is found has the key.
  pub key-find_by :
      (key : A → String) (k : String) (xs : List A) {x : A} → find_by key k xs ≡ some x → key x ≡ k
  key-find_by key k [] h = cc
  key-find_by key k (x ∷ xs) h = elim (Bool-cases (str_eq (key x) k)) [
    | inl e ↦ ground (arith, eq_iff (key x) k)
    | inr e ↦ key-find_by key k xs (rw e at h)
  ]

  -- A row that WHERE finds passes it.
  pub find_where_passes :
      (p : A → Bool) (xs : List A) {x : A} → find_where p xs ≡ some x → p x ≡ true
  find_where_passes p [] h = cc
  find_where_passes p (x ∷ xs) h = elim (Bool-cases (p x)) [
    | inl e ↦ ground arith
    | inr e ↦ find_where_passes p xs (rw e at h)
  ]

  pub best_where_passes :
      (better : A → A → Bool) (p : A → Bool) (xs : List A) {x : A}
      → best_where better p xs ≡ some x
      → p x ≡ true
  best_where_passes better p [] h = cc
  best_where_passes better p (x ∷ xs) {x = y} h =
      ground (arith, λ (e : best_where better p xs ≡ some y). best_where_passes better p xs e)

  -- An UPDATE by key counts one row if that row passes the rest of the WHERE, and none otherwise.
  pub count_where-by_key :
      (key : A → String) (k : String) (p : A → Bool) (xs : List A)
      → IsKeyed key xs
      → count_where (λ x. str_eq (key x) k && p x) xs
        ≡ (if passes? p (find_by key k xs) then 1 else 0)
  count_where-by_key key k p [] h = refl
  count_where-by_key key k p (x ∷ xs) h =
      ground (arith, eq_iff (key x) k, count_where-by_key key k p xs h.1)

  -- A table grows by a row with a fresh key.
  pub find_by-append :
      (key : A → String) (k : String) (xs : List A) (y : A)
      → find_by key k (xs ++ y ∷ []) ≡ (
          if is_some (find_by key k xs)
          then find_by key k xs
          else if str_eq (key y) k
          then some y
          else none)
  find_by-append key k [] y = refl
  find_by-append key k (x ∷ xs) y = ground (arith, find_by-append key k xs y)

  pub append-IsKeyed :
      (key : A → String) (xs : List A) (y : A)
      → IsKeyed key xs
      → find_by key (key y) xs ≡ none
      → IsKeyed key (xs ++ y ∷ [])
  append-IsKeyed key [] y h fresh = (refl, tt)
  append-IsKeyed key (x ∷ xs) y h fresh = elim (Bool-cases (str_eq (key x) (key y))) [
    | inl e ↦ cc (rw e at fresh)
    | inr e ↦ (
      ground
          (arith, find_by-append key (key x) xs y, eq_iff (key y) (key x), eq_iff (key x) (key y)),
      append-IsKeyed key xs y h.1 (rw e at fresh),
    )
  ]

  find_by-cons_other :
      (key : A → String) (x y : A) (xs : List A)
      → find_by key (key y) xs ≡ none
      → find_by key (key x) xs ≡ some x
      → find_by key (key x) (y ∷ xs) ≡ some x
  find_by-cons_other key x y xs fresh found = elim (Bool-cases (str_eq (key y) (key x))) [
    | inl e ↦ cc (found, rw ((eq_iff (key y) (key x)).0 e) at fresh)
    | inr e ↦ rw e found
  ]

  -- The row that a SELECT picks is the row under its key.
  pub best_where-find_by :
      (key : A → String) (better : A → A → Bool) (p : A → Bool) (xs : List A) (x : A)
      → IsKeyed key xs
      → best_where better p xs ≡ some x
      → find_by key (key x) xs ≡ some x
  best_where-find_by key better p [] x h e = cc
  best_where-find_by key better p (y ∷ xs) x h e = ground (
    arith,
    λ (q : best_where better p xs ≡ some x).
        find_by-cons_other key x y xs h.0 (best_where-find_by key better p xs x h.1 q),
    eq_refl (key y),
  )

  pub find_where-find_by :
      (key : A → String) (p : A → Bool) (xs : List A) (x : A)
      → IsKeyed key xs
      → find_where p xs ≡ some x
      → find_by key (key x) xs ≡ some x
  find_where-find_by key p [] x h e = cc
  find_where-find_by key p (y ∷ xs) x h e = ground (
    arith,
    λ (q : find_where p xs ≡ some x).
        find_by-cons_other key x y xs h.0 (find_where-find_by key p xs x h.1 q),
    eq_refl (key y),
  )

  -- An UPDATE that counts no row changes none.
  pub update_where_none :
      (p : A → Bool) (f : A → A) (xs : List A) → count_where p xs ≡ 0 → update_where p f xs ≡ xs
  update_where_none p f [] h = refl
  update_where_none p f (x ∷ xs) h = ground (arith, update_where_none p f xs)
