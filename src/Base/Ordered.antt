-- ===== src/Base/Ordered.antt =====
-- SELECT … WHERE p ORDER BY …: an insertion sort by "comes before", stable on equals.
use Prim.Native.String.{String}
use mathlib.Core.Path.{◌≡◌, refl, sym, subst}
use mathlib.Core.Logic.{inl, inr}
use mathlib.Core.Bool.{Bool, true, false}
use mathlib.Core.Option.{none, some}
use mathlib.Core.List.{List, [], ◌∷◌}
use native.Mathlib.Omega.{arith}
use text.Mathlib.TextEquality.{eq_iff}
use job_applier.Base.Tests.{if◌then◌else◌, Bool-cases}
use job_applier.Base.Text.{str_eq}
use job_applier.Base.Table.{find_by, select_where, IsKeyed}

module _ {A : Type 0} where
  abbrev pub insert_ordered : (A → A → Bool) → A → List A → List A
  insert_ordered before x [] = x ∷ []
  insert_ordered before x (y ∷ ys) =
      let rest = insert_ordered before x ys in if before y x then y ∷ rest else x ∷ y ∷ ys

  abbrev pub select_ordered : (A → A → Bool) → (A → Bool) → List A → List A
  select_ordered before p [] = []
  select_ordered before p (x ∷ xs) =
      let rest = select_ordered before p xs in if p x then insert_ordered before x rest else rest

  module _ (key : A → String) (k : String) where
    not_first :
        (x : A) (xs : List A)
        → find_by key k (x ∷ xs) ≡ none
        → (str_eq (key x) k ≡ false) × (find_by key k xs ≡ none)
    not_first x xs h = (ground arith, ground arith)

    find_by-insert_other :
        (before : A → A → Bool) (x : A) (xs : List A)
        → str_eq (key x) k ≡ false
        → find_by key k (insert_ordered before x xs) ≡ find_by key k xs
    find_by-insert_other before x [] h = rw h
    find_by-insert_other before x (y ∷ ys) h = elim (Bool-cases (before y x)) [
      | inl e ↦ rw (e, find_by-insert_other before x ys h)
      | inr e ↦ rw (e, h)
    ]

    find_by-insert_new :
        (before : A → A → Bool) (x : A) (xs : List A)
        → str_eq (key x) k ≡ true
        → find_by key k xs ≡ none
        → find_by key k (insert_ordered before x xs) ≡ some x
    find_by-insert_new before x [] h absent = rw h
    find_by-insert_new before x (y ∷ ys) h absent =
        let (other, absent') = not_first y ys absent in
        elim (Bool-cases (before y x)) [
          | inl e ↦ rw (e, other, find_by-insert_new before x ys h absent')
          | inr e ↦ rw (e, h)
        ]

    -- A key that is not in the table is not in the selection.
    pub select_ordered-none :
        (before : A → A → Bool) (p : A → Bool) (xs : List A)
        → find_by key k xs ≡ none
        → find_by key k (select_ordered before p xs) ≡ none
    select_ordered-none before p [] h = refl
    select_ordered-none before p (x ∷ xs) h =
        let (other, h') = not_first x xs h in
        elim (Bool-cases (p x)) [
          | inl e ↦ rw (
            e,
            find_by-insert_other before x (select_ordered before p xs) other,
            select_ordered-none before p xs h',
          )
          | inr e ↦ rw (e, select_ordered-none before p xs h')
        ]

    -- A row that passes is found in the selection, and one that does not pass is not.
    pub find_by-select_ordered :
        (before : A → A → Bool) (p : A → Bool) (xs : List A) (x : A)
        → IsKeyed key xs
        → find_by key k xs ≡ some x
        → find_by key k (select_ordered before p xs) ≡ (if p x then some x else none)
    find_by-select_ordered before p [] x keyed h = cc h
    find_by-select_ordered before p (y ∷ ys) x keyed h = elim (Bool-cases (str_eq (key y) k)) [
      | inl e ↦ first (ground (arith, e)) (ground (arith, e, eq_iff (key y) k))
      | inr e ↦
          let found : find_by key k ys ≡ some x = rw e at h in
          elim (Bool-cases (p y)) [
            | inl f ↦
                rw (f, find_by-insert_other before y (select_ordered before p ys) e)
                  (find_by-select_ordered before p ys x keyed.1 found)
            | inr f ↦ rw f (find_by-select_ordered before p ys x keyed.1 found)
          ]
    ]
      where
        first :
            y ≡ x
            → key y ≡ k
            → find_by key k (select_ordered before p (y ∷ ys)) ≡ (if p x then some x else none)
        first same its_key =
            let absent : find_by key k (select_ordered before p ys) ≡ none =
              select_ordered-none before p ys
                (subst (λ t. find_by key t ys ≡ none) its_key keyed.0) in
            elim (Bool-cases (p y)) [
              | inl f ↦ rw (sym same) (
                  rw f (
                    find_by-insert_new before y (select_ordered before p ys)
                      (ground (arith, its_key, eq_iff (key y) k)) absent))
              | inr f ↦ rw (sym same) (rw f absent)
            ]

    select_where-none :
        (p : A → Bool) (xs : List A)
        → find_by key k xs ≡ none
        → find_by key k (select_where p xs) ≡ none
    select_where-none p [] h = refl
    select_where-none p (x ∷ xs) h =
        ground (arith, λ (e : find_by key k xs ≡ none). select_where-none p xs e)

    -- The same of a selection in the order of the table.
    pub find_by-select_where :
        (p : A → Bool) (xs : List A) (x : A)
        → IsKeyed key xs
        → find_by key k xs ≡ some x
        → find_by key k (select_where p xs) ≡ (if p x then some x else none)
    find_by-select_where p [] x keyed h = cc h
    find_by-select_where p (y ∷ ys) x keyed h = elim (Bool-cases (str_eq (key y) k)) [
      | inl e ↦
          let same : y ≡ x = ground (arith, e) in
          let its_key : key y ≡ k = ground (arith, e, eq_iff (key y) k) in
          let absent : find_by key k (select_where p ys) ≡ none =
            select_where-none p ys (subst (λ t. find_by key t ys ≡ none) its_key keyed.0) in
          rw (sym same) (elim (Bool-cases (p y)) [ inl f ↦ rw (f, e) | inr f ↦ rw (f, absent) ])
      | inr e ↦
          let rest = find_by-select_where p ys x keyed.1 (rw e at h) in
          elim (Bool-cases (p y)) [ inl f ↦ rw (f, e) rest | inr f ↦ rw f rest ]
    ]
