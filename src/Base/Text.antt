-- ===== src/Base/Text.antt =====
-- Texts. Python's truth test of a text, SQL's comparison of a nullable text, prefixes, and decimals.
use Prim.Native.Nat.{ℕ, Ordering, zero, suc, ◌+◌, ◌/◌, ◌%◌}
use Prim.Native.Char.{code}
use Prim.Native.String.{String, compare, ◌++◌}
use mathlib.Core.Path.{◌≡◌}
use mathlib.Core.Bool.{Bool, true, false, ◌&&◌}
use mathlib.Core.Option.{Option, none, some}
use mathlib.Core.List.{List, [], ◌∷◌}
use text.Mathlib.Text.{◌==◌ as text_eq}
use text.Mathlib.TextEquality.{eq_iff}
use native.Mathlib.Omega.{arith}
use job_applier.Base.Tests.{ltb, leb, ◌==◌, if◌then◌else◌}

-- `a == b` on texts
abbrev pub str_eq : String → String → Bool
str_eq = text_eq

-- `column = ?` on a nullable text
abbrev pub is_text : Option String → String → Bool
is_text none t = false
is_text (some s) t = str_eq s t

-- `a < b` on texts, by code points
abbrev pub text_lt : String → String → Bool
text_lt a b = elim (compare a b) [ Ordering.lt ↦ true | _ ↦ false ]

-- `if text:`
abbrev pub non_empty : String → Bool
non_empty s = if str_eq s "" then false else true

-- `if text:` where the text may be `None`
abbrev pub filled : Option String → Bool
filled none = false
filled (some s) = non_empty s

-- `a or b` on texts
abbrev pub or_else : Option String → String → String
or_else none b = b
or_else (some a) b = if non_empty a then a else b

-- `CASE WHEN ? != '' THEN ? ELSE column END`
abbrev pub keep_or : String → Option String → Option String
keep_or s old = if non_empty s then some s else old

-- `text[:n]`
pub clip : ℕ → String → String
clip zero s = ""
clip (suc n) String.[] = String.[]
clip (suc n) (String.◌∷◌ c s) = String.◌∷◌ c (clip n s)

pub digit : ℕ → String
digit d =
    if d == 0
    then "0"
    else if d == 1
    then "1"
    else if d == 2
    then "2"
    else if d == 3
    then "3"
    else if d == 4
    then "4"
    else if d == 5
    then "5"
    else if d == 6
    then "6"
    else if d == 7
    then "7"
    else if d == 8
    then "8"
    else "9"

pub decimal_from : ℕ → ℕ → String
decimal_from zero n = ""
decimal_from (suc fuel) n =
    let front = decimal_from fuel (n / 10) in if ltb n 10 then digit n else front ++ digit (n % 10)

-- A number in an f-string. A number has fewer digits than itself plus one.
pub decimal : ℕ → String
unfolding decimal_from digit
decimal n = decimal_from (suc n) n

infixr 65 ◌<>◌
-- f-strings and `+` on texts
abbrev pub ◌<>◌ : String → String → String
a <> b = ◌++◌ a b

-- SQLite's LOWER folds the ASCII letters.
abbrev pub lower_code : ℕ → ℕ
lower_code c = if leb b'A' c && leb c b'Z' then c + 32 else c

abbrev pub lower_codes : String → List ℕ
lower_codes String.[] = []
lower_codes (String.◌∷◌ c s) = lower_code (code c) ∷ lower_codes s

abbrev pub same_codes : List ℕ → List ℕ → Bool
same_codes [] [] = true
same_codes [] (y ∷ ys) = false
same_codes (x ∷ xs) [] = false
same_codes (x ∷ xs) (y ∷ ys) = x == y && same_codes xs ys

-- `LOWER(column) = word`, for a word in lower case
unfoldable pub lower_is : String → String → Bool
lower_is s word = same_codes (lower_codes s) (lower_codes word)

pub is_text→eq : (o : Option String) (t : String) → is_text o t ≡ true → o ≡ some t
is_text→eq none t h = cc
is_text→eq (some s) t h = ground (arith, eq_iff s t)

-- `text.startswith(prefix)`
pub starts_with : String → String → Bool
starts_with s String.[] = true
starts_with String.[] (String.◌∷◌ c p) = false
starts_with (String.◌∷◌ d s) (String.◌∷◌ c p) = code d == code c && starts_with s p

-- `part in text`
unfoldable pub contains : String → String → Bool
unfolding starts_with
contains String.[] p = starts_with "" p
contains (String.◌∷◌ c s) p =
    let rest = contains s p in if starts_with (String.◌∷◌ c s) p then true else rest
