-- ===== src/Prelude/Text.antt =====
-- Text as lists of code points, with the methods of `str` that the program uses.
pub mod Numerals
use Prim.Native.Nat.{ℕ, zero, suc, ◌+◌, ◌-◌, ◌*◌, ◌/◌, ◌%◌}
use Prim.Native.Char.{Char, code}
use Prim.Native.String.{String, ◌++◌ as ◌<>◌}
use mathlib.Core.Bool.{Bool, true, false, ◌&&◌, ◌||◌}
use mathlib.Core.List.{List, [], ◌∷◌}
use mathlib.Core.Option.{Option, none, some}
use coda_node.Prelude.Tests.{ltb, leb, ◌==◌, if◌then◌else◌}
use coda_node.Prelude.Ints.{ℤ, pos, negsuc}

abbrev pub codes : String → List ℕ
codes String.[] = []
codes (String.◌∷◌ c s) = code c ∷ codes s

-- `s[:n]`, which counts characters.
unfoldable pub take_chars : ℕ → String → String
take_chars zero s = ""
take_chars (suc n) String.[] = ""
take_chars (suc n) (String.◌∷◌ c s) = String.◌∷◌ c (take_chars n s)

-- The ASCII characters for which `str.isspace` holds.
abbrev pub is_space : ℕ → Bool
is_space c = c == 32 || (leb 9 c && leb c 13) || (leb 28 c && leb c 31)

abbrev pub is_digit : ℕ → Bool
is_digit c = leb b'0' c && leb c b'9'

unfoldable pub lstrip : List ℕ → List ℕ
lstrip [] = []
lstrip (c ∷ s) = let rest = lstrip s in if is_space c then rest else c ∷ s

-- `s.rstrip()`: a space is kept if something stands behind it.
unfoldable pub rstrip : List ℕ → List ℕ
rstrip [] = []
rstrip (c ∷ s) = elim (rstrip s) [ [] ↦ if is_space c then [] else c ∷ [] | d ∷ r ↦ c ∷ d ∷ r ]

unfoldable pub strip : List ℕ → List ℕ
unfolding lstrip rstrip
strip s = rstrip (lstrip s)

-- The digits of `int(text)`, where one `_` may stand between two digits. `after` says that the
-- last character was a digit.
digits : List ℕ → Bool → ℕ → Option ℕ
digits [] after n = if after then some n else none
digits (c ∷ s) after n =
    if is_digit c
    then digits s true (n * 10 + (c - 48))
    else if c == b'_' && after
    then digits s false n
    else none

negate : ℕ → ℤ
negate zero = pos 0
negate (suc n) = negsuc n

signed : List ℕ → Option ℤ
signed [] = none
signed (c ∷ s) =
    if c == b'-'
    then elim (digits s false 0) [ none ↦ none | some n ↦ some (negate n) ]
    else if c == b'+'
    then elim (digits s false 0) [ none ↦ none | some n ↦ some (pos n) ]
    else elim (digits (c ∷ s) false 0) [ none ↦ none | some n ↦ some (pos n) ]

-- `int(text)` over ASCII text; `none` is the `ValueError`.
unfoldable pub parse_int : List ℕ → Option ℤ
unfolding digits negate signed strip
parse_int s = signed (strip s)

-- `s.startswith(p)` and `p in s`.
abbrev pub starts_with : List ℕ → List ℕ → Bool
starts_with [] s = true
starts_with (p ∷ ps) [] = false
starts_with (p ∷ ps) (c ∷ s) = p == c && starts_with ps s

abbrev pub includes : List ℕ → List ℕ → Bool
includes p [] = starts_with p []
includes p (c ∷ s) = starts_with p (c ∷ s) || includes p s

abbrev pub lead : ℕ → List (List ℕ) → List (List ℕ)
lead c [] = (c ∷ []) ∷ []
lead c (t ∷ ts) = (c ∷ t) ∷ ts

-- `s.split(sep)` for a separator of one character.
unfoldable pub split : ℕ → List ℕ → List (List ℕ)
split sep [] = [] ∷ []
split sep (c ∷ s) = let rest = split sep s in if c == sep then [] ∷ rest else lead c rest

abbrev pub is_line_break : ℕ → Bool
is_line_break c =
    (leb 10 c && leb c 13) || (leb 28 c && leb c 30) || c == 133 || c == 8232 || c == 8233

-- `s.splitlines()`, where "\r\n" is one break.
unfoldable pub splitlines : List ℕ → List (List ℕ)
splitlines [] = []
splitlines (c ∷ s) =
    let rest = splitlines s in
    if is_line_break c
    then if c == 13 && starts_with (10 ∷ []) s then rest else [] ∷ rest
    else lead c rest

-- `s.lower()` on ASCII text.
abbrev pub lower : List ℕ → List ℕ
lower [] = []
lower (c ∷ s) = (if leb 65 c && leb c 90 then c + 32 else c) ∷ lower s

digit : List String → ℕ → String
digit [] n = ""
digit (d ∷ ds) zero = d
digit (d ∷ ds) (suc n) = digit ds n

decimal_onto : ℕ → ℕ → String → String
unfolding digit
decimal_onto zero n s = s
decimal_onto (suc fuel) n s =
    let d = digit ("0" ∷ "1" ∷ "2" ∷ "3" ∷ "4" ∷ "5" ∷ "6" ∷ "7" ∷ "8" ∷ "9" ∷ []) (n % 10) in
    let rest = decimal_onto fuel (n / 10) (d <> s) in if ltb n 10 then d <> s else rest

-- `str(n)`; a number has no more digits than its size.
unfoldable pub decimal : ℕ → String
unfolding decimal_onto
decimal n = decimal_onto (suc n) n ""

-- `rstrip` and `strip` on a text.
abbrev pub push_unless_space : Char → String → String
push_unless_space c String.[] = if is_space (code c) then "" else String.◌∷◌ c String.[]
push_unless_space c (String.◌∷◌ d s) = String.◌∷◌ c (String.◌∷◌ d s)

unfoldable pub rstrip_text : String → String
rstrip_text String.[] = ""
rstrip_text (String.◌∷◌ c s) = push_unless_space c (rstrip_text s)

unfoldable pub lstrip_text : String → String
lstrip_text String.[] = ""
lstrip_text (String.◌∷◌ c s) =
    let rest = lstrip_text s in if is_space (code c) then rest else String.◌∷◌ c s

abbrev pub strip_text : String → String
unfolding rstrip_text lstrip_text
strip_text s = rstrip_text (lstrip_text s)
