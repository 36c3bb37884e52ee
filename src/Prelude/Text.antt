-- ===== src/Prelude/Text.antt =====
-- What the program does with texts: slices, joins, and searches over code points.
use Prim.Native.Char.{code}
use Prim.Native.String.{String, ◌++◌ as append}
use Prim.Native.Nat.{ℕ, zero, suc, ◌/◌, ◌%◌}
use mathlib.Core.Bool.{Bool, true, false, ◌&&◌, ◌||◌}
use mathlib.Core.List.{List, [], ◌∷◌}
use zk_ai.Prelude.Tests.{ltb, ◌==◌, if◌then◌else◌}

-- The code points of a text.
abbrev pub codes : String → List ℕ
codes String.[] = []
codes (String.◌∷◌ c s) = code c ∷ codes s

-- `s[:n]`
unfoldable pub slice_to : ℕ → String → String
slice_to zero s = String.[]
slice_to (suc n) String.[] = String.[]
slice_to (suc n) (String.◌∷◌ c s) = String.◌∷◌ c (slice_to n s)

-- `not s`
abbrev pub is_empty : String → Bool
is_empty String.[] = true
is_empty (String.◌∷◌ c s) = false

-- Concatenation of texts, as in an f-string.
infixr 65 ◌⧺◌
abbrev pub ◌⧺◌ : String → String → String
s ⧺ t = append s t

-- `s or t`
abbrev pub or_text : String → String → String
or_text s t = if is_empty s then t else s

-- `str(n)` of a number
digit : ℕ → String
digit d =
    if d == 0
    then "0"
    else if d == 1
    then "1"
    else if d == 2
    then "2"
    else if d == 3
    then "3"
    else if d == 4
    then "4"
    else if d == 5
    then "5"
    else if d == 6
    then "6"
    else if d == 7
    then "7"
    else if d == 8
    then "8"
    else "9"

decimal_digits : ℕ → ℕ → String → String
decimal_digits zero n after = after
decimal_digits (suc fuel) n after =
    let rest = decimal_digits fuel (n / 10) (digit (n % 10) ⧺ after) in
    if ltb n 10 then digit n ⧺ after else rest

unfoldable pub decimal : ℕ → String
unfolding digit decimal_digits
decimal n = decimal_digits (suc n) n String.[]

-- Does the list start with the pattern?
unfoldable pub starts_with : List ℕ → List ℕ → Bool
starts_with [] xs = true
starts_with (p ∷ ps) [] = false
starts_with (p ∷ ps) (x ∷ xs) = p == x && starts_with ps xs

-- `pattern in text`
unfoldable pub contains : List ℕ → List ℕ → Bool
unfolding starts_with
contains ps [] = starts_with ps []
contains ps (x ∷ xs) = starts_with ps (x ∷ xs) || contains ps xs
