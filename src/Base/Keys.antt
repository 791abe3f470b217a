-- ===== src/Base/Keys.antt =====
-- Laws of a WHERE that asks for a key, and of the order of a SELECT.
use Prim.Native.String.{String}
use mathlib.Core.Path.{◌≡◌, refl, subst}
use mathlib.Core.Logic.{inl, inr}
use mathlib.Core.Bool.{Bool, true, false, not}
use mathlib.Core.Option.{Option, none, some}
use mathlib.Core.List.{List, [], ◌∷◌, ◌++◌}
use native.Mathlib.Omega.{arith}
use text.Mathlib.TextEquality.{eq_iff}
use job_applier.Base.Tests.{if◌then◌else◌, is_some, Bool-cases}
use job_applier.Base.Text.{str_eq}
use job_applier.Base.Table.{count_where, find_where, best_where, prefer, find_by, passes?, IsKeyed}

module _ {A : Type 0} where
  -- An UPDATE that asks for a key counts the row under it, if that row passes.
  pub count_where-keyed :
      (key : A → String) (k : String) (p : A → Bool)
      → ((x : A) → p x ≡ true → str_eq (key x) k ≡ true)
      → (xs : List A) → IsKeyed key xs
      → count_where p xs ≡ (if passes? p (find_by key k xs) then 1 else 0)
  count_where-keyed key k p asks [] h = refl
  count_where-keyed key k p asks (x ∷ xs) h =
      ground (arith, eq_iff (key x) k, asks x, count_where-keyed key k p asks xs h.1)

  -- A SELECT of such a WHERE finds the row under the key, if that passes.
  pub find_where-keyed :
      (key : A → String) (k : String) (p : A → Bool)
      → ((x : A) → p x ≡ true → str_eq (key x) k ≡ true)
      → (xs : List A) → IsKeyed key xs
      → is_some (find_where p xs) ≡ passes? p (find_by key k xs)
  find_where-keyed key k p asks [] h = refl
  find_where-keyed key k p asks (x ∷ xs) h =
      ground (arith, eq_iff (key x) k, asks x, find_where-keyed key k p asks xs h.1)

  some_injective : {a b : A} → some a ≡ some b → b ≡ a
  some_injective e = cc

  -- No row comes before the one that was picked, and there is one where a row passes.
  abbrev pub is_best_against : (A → A → Bool) → A → Option A → Bool
  is_best_against better y none = false
  is_best_against better y (some x) = not (better y x)

  module _ (better : A → A → Bool) (irr : (x : A) → better x x ≡ false)
      (asy : (x y : A) → better x y ≡ true → better y x ≡ false)
      (tra : (x y z : A) → better x y ≡ false → better y z ≡ false → better x z ≡ false) where
    prefer-itself :
        (y : A) (rest : Option A) → is_best_against better y (some (prefer better y rest)) ≡ true
    prefer-itself y none = rw (irr y)
    prefer-itself y (some r) = ground (arith, irr y, asy r y)

    prefer-other :
        (b : Bool) (y z : A) (rest : Option A)
        → is_best_against better y rest ≡ true
        → is_best_against better y (if b then some (prefer better z rest) else rest) ≡ true
    prefer-other b y z none h = cc
    prefer-other b y z (some r) h = ground (arith, tra y r z)

    pub best_where-IsBest :
        (p : A → Bool) (key : A → String) (k : String) (xs : List A) {y : A}
        → find_by key k xs ≡ some y
        → p y ≡ true
        → is_best_against better y (best_where better p xs) ≡ true
    best_where-IsBest p key k [] found passed = cc
    best_where-IsBest p key k (z ∷ zs) {y} found passed = elim (Bool-cases (str_eq (key z) k)) [
      | inl e ↦
          subst
            (λ (x : A).
              is_best_against better y (
                if p x
                then some (prefer better x (best_where better p zs))
                else best_where better p zs)
              ≡ true)
            (some_injective (rw e at found)) (rw passed (prefer-itself y (best_where better p zs)))
      | inr e ↦
          prefer-other (p z) y z (best_where better p zs)
            (best_where-IsBest p key k zs (rw e at found) passed)
    ]

  -- A row that passes is found in a table that it is put at the end of.
  pub find_where-append :
      (p : A → Bool) (xs : List A) (y : A)
      → p y ≡ true
      → is_some (find_where p (xs ++ y ∷ [])) ≡ true
  find_where-append p [] y h = rw h
  find_where-append p (x ∷ xs) y h = ground (arith, find_where-append p xs y h)
