-- ===== src/Viewer/Bytes.antt =====
-- Python's bytes, as numbers, with the slices that the filter takes of them.
use job_applier.Base.{
  ℕ, zero, suc, ◌+◌, ◌-◌, ◌*◌, ◌≡◌, ◌≤◌, ◌<◌, refl, ap, Bool, true, false, ◌&&◌, List, [], ◌∷◌,
  ◌++◌, ◌==◌, arith,
}

abbrev pub length {ℓ} : {A : Type ℓ} → List A → ℕ
length [] = 0
length (x ∷ xs) = suc (length xs)

-- `data[:n]`
abbrev pub take {ℓ} : {A : Type ℓ} → ℕ → List A → List A
take zero xs = []
take (suc n) [] = []
take (suc n) (x ∷ xs) = x ∷ take n xs

-- `data[n:]`
abbrev pub drop {ℓ} : {A : Type ℓ} → ℕ → List A → List A
drop zero xs = xs
drop (suc n) [] = []
drop (suc n) (x ∷ xs) = drop n xs

-- `data[n]`, read where there is such a byte
abbrev pub byte : ℕ → List ℕ → ℕ
byte n [] = 0
byte zero (x ∷ xs) = x
byte (suc n) (x ∷ xs) = byte n xs

-- `data.startswith(prefix)`
abbrev pub has_prefix : List ℕ → List ℕ → Bool
has_prefix xs [] = true
has_prefix [] (p ∷ ps) = false
has_prefix (x ∷ xs) (p ∷ ps) = x == p && has_prefix xs ps

-- `struct.unpack(">H", …)` and `struct.unpack(">I", …)` at an offset
abbrev pub unpack_h : ℕ → List ℕ → ℕ
unpack_h n xs = 256 * byte n xs + byte (n + 1) xs

abbrev pub unpack_i : ℕ → List ℕ → ℕ
unpack_i n xs = 65536 * unpack_h n xs + unpack_h (n + 2) xs

module _ {ℓ} {A : Type ℓ} where
  pub append_empty : (xs : List A) → (xs ++ []) ≡ xs
  append_empty [] = refl
  append_empty (x ∷ xs) = ap (λ r. x ∷ r) (append_empty xs)

  pub append_assoc : (xs ys zs : List A) → ((xs ++ ys) ++ zs) ≡ (xs ++ (ys ++ zs))
  append_assoc [] ys zs = refl
  append_assoc (x ∷ xs) ys zs = ap (λ r. x ∷ r) (append_assoc xs ys zs)

  pub length-append : (xs ys : List A) → length (xs ++ ys) ≡ length xs + length ys
  length-append [] ys = omega arith
  length-append (x ∷ xs) ys = omega (arith, length-append xs ys)

  pub take-drop : (n : ℕ) (xs : List A) → (take n xs ++ drop n xs) ≡ xs
  take-drop zero xs = refl
  take-drop (suc n) [] = refl
  take-drop (suc n) (x ∷ xs) = ap (λ r. x ∷ r) (take-drop n xs)

  pub length-drop : (n : ℕ) (xs : List A) → length (drop n xs) ≡ length xs - n
  length-drop zero xs = omega arith
  length-drop (suc n) [] = omega arith
  length-drop (suc n) (x ∷ xs) = omega (arith, length-drop n xs)

  pub length-take : (n : ℕ) (xs : List A) → n ≤ length xs → length (take n xs) ≡ n
  length-take zero xs h = refl
  length-take (suc n) [] h = omega arith
  length-take (suc n) (x ∷ xs) h = let rest = length-take n xs (omega arith) in omega arith

  pub length-take_le : (n : ℕ) (xs : List A) → length (take n xs) ≤ n
  length-take_le zero xs = omega arith
  length-take_le (suc n) [] = omega arith
  length-take_le (suc n) (x ∷ xs) = omega (arith, length-take_le n xs)

  pub take-append : (n : ℕ) (xs ys : List A) → n ≤ length xs → take n (xs ++ ys) ≡ take n xs
  take-append zero xs ys h = refl
  take-append (suc n) [] ys h = ground arith
  take-append (suc n) (x ∷ xs) ys h = ap (λ r. x ∷ r) (take-append n xs ys (omega arith))

  pub drop-append : (n : ℕ) (xs ys : List A) → n ≤ length xs → drop n (xs ++ ys) ≡ (drop n xs ++ ys)
  drop-append zero xs ys h = refl
  drop-append (suc n) [] ys h = ground arith
  drop-append (suc n) (x ∷ xs) ys h = drop-append n xs ys (omega arith)

pub byte-append : (n : ℕ) (xs ys : List ℕ) → n < length xs → byte n (xs ++ ys) ≡ byte n xs
byte-append n [] ys h = ground arith
byte-append zero (x ∷ xs) ys h = refl
byte-append (suc n) (x ∷ xs) ys h = byte-append n xs ys (omega arith)

pub byte-take : (n k : ℕ) (xs : List ℕ) → n < k → byte n (take k xs) ≡ byte n xs
byte-take n zero xs h = ground arith
byte-take n (suc k) [] h = refl
byte-take zero (suc k) (x ∷ xs) h = refl
byte-take (suc n) (suc k) (x ∷ xs) h = byte-take n k xs (omega arith)
