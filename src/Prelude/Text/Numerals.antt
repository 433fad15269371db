-- ===== src/Prelude/Text/Numerals.antt =====
-- Decimal numerals as code points: `str(n)` and `int(text)` are inverse.
use Prim.Native.Nat.{ℕ, zero, suc, ◌+◌, ◌-◌, ◌*◌, ◌/◌, ◌%◌, ◌<◌}
use mathlib.Core.Path.{◌≡◌, refl, ap, ◌∙◌}
use mathlib.Core.Logic.{inl, inr}
use mathlib.Core.Bool.{Bool, true, false}
use mathlib.Core.List.{List, [], ◌∷◌, ◌++◌}
use mathlib.Core.Option.{some}
use native.Mathlib.Omega.{arith}
use coda_node.Prelude.Tests.{ltb, ◌==◌, if◌then◌else◌, Bool-cases}
use coda_node.Prelude.Lists.{All}
use coda_node.Prelude.Ints.{ℤ, pos, negsuc}
use coda_node.Prelude.Text.{is_space, is_digit, digits, signed, lstrip, rstrip, strip, parse_int}

-- A round for each digit, the last one first.
numeral_onto : ℕ → ℕ → List ℕ → List ℕ
numeral_onto zero n out = out
numeral_onto (suc fuel) n out =
    let more = numeral_onto fuel (n / 10) ((48 + n % 10) ∷ out) in
    if ltb n 10 then (48 + n % 10) ∷ out else more

-- `str(n)`; a number has no more digits than its size.
unfoldable pub numeral : ℕ → List ℕ
unfolding numeral_onto
numeral n = numeral_onto (suc n) n []

-- `str(n)` of an integer.
abbrev pub int_numeral : ℤ → List ℕ
int_numeral (pos n) = numeral n
int_numeral (negsuc n) = b'-' ∷ numeral (suc n)

abbrev pub Digits : List ℕ → Type 0
Digits = All (λ c. is_digit c ≡ true)

last_digit : (n : ℕ) → is_digit (48 + n % 10) ≡ true
last_digit n = ground arith

numeral_onto-Digits : (fuel n : ℕ) (out : List ℕ) → Digits out → Digits (numeral_onto fuel n out)
unfolding numeral_onto
numeral_onto-Digits zero n out h = h
numeral_onto-Digits (suc fuel) n out h = elim (Bool-cases (ltb n 10)) [
  | inl e ↦ rw e (last_digit n, h)
  | inr e ↦ rw e (numeral_onto-Digits fuel (n / 10) _ (last_digit n, h))
]

pub numeral-Digits : (n : ℕ) → Digits (numeral n)
unfolding numeral
numeral-Digits n = numeral_onto-Digits (suc n) n [] tt

scan_digit :
    (c : ℕ) (s : List ℕ) (after : Bool) (n : ℕ)
    → is_digit c ≡ true
    → digits (c ∷ s) after n ≡ digits s true (n * 10 + (c - 48))
unfolding digits
scan_digit c s after n h = rw h

-- Reading what was printed in front of `out` is reading `out` behind the number.
digits-numeral_onto :
    (fuel n : ℕ) (out : List ℕ) (after : Bool)
    → n < fuel
    → digits (numeral_onto fuel n out) after 0 ≡ digits out true n
unfolding numeral_onto
digits-numeral_onto zero n out after h = absurd (omega arith)
digits-numeral_onto (suc fuel) n out after h = elim (Bool-cases (ltb n 10)) [
  | inl e ↦
      rw e
        (scan_digit (48 + n % 10) out after 0 (last_digit n) ∙ ap (digits out true) (ground arith))
  | inr e ↦ rw e (
      digits-numeral_onto fuel (n / 10) _ after (ground arith)
      ∙ scan_digit (48 + n % 10) out true (n / 10) (last_digit n)
      ∙ ap (digits out true) (omega arith))
]

numeral_onto-cons :
    (fuel n : ℕ) (out : List ℕ) → (c : ℕ) × (s : List ℕ) × (numeral_onto (suc fuel) n out ≡ c ∷ s)
unfolding numeral_onto
numeral_onto-cons zero n out = elim (Bool-cases (ltb n 10)) [
  | inl e ↦ (48 + n % 10, out, rw e refl)
  | inr e ↦ (48 + n % 10, out, rw e refl)
]
numeral_onto-cons (suc fuel) n out = elim (Bool-cases (ltb n 10)) [
  | inl e ↦ (48 + n % 10, out, rw e refl)
  | inr e ↦ let (c, s, h) = numeral_onto-cons fuel (n / 10) ((48 + n % 10) ∷ out) in (c, s, rw e h)
]

-- A numeral has a first digit.
pub numeral-cons : (n : ℕ) → (c : ℕ) × (s : List ℕ) × (numeral n ≡ c ∷ s)
unfolding numeral
numeral-cons n = numeral_onto-cons n n []

abbrev pub Solid : List ℕ → Type 0
Solid = All (λ c. is_space c ≡ false)

digit-solid : (c : ℕ) → is_digit c ≡ true → is_space c ≡ false
digit-solid c h = ground arith

pub Digits-Solid : (s : List ℕ) → Digits s → Solid s
Digits-Solid [] h = tt
Digits-Solid (c ∷ s) (p, h) = (digit-solid c p, Digits-Solid s h)

rstrip-Solid : (s : List ℕ) → Solid s → rstrip s ≡ s
unfolding rstrip
rstrip-Solid [] h = refl
rstrip-Solid (c ∷ []) (p, h) = rw p refl
rstrip-Solid (c ∷ d ∷ s) (p, h) = rw (rstrip-Solid (d ∷ s) h) refl

-- A text without a space is stripped of nothing.
pub strip-Solid : (s : List ℕ) → Solid s → strip s ≡ s
unfolding strip lstrip
strip-Solid [] h = unfold rstrip in refl
strip-Solid (c ∷ s) (p, h) = rw p (rstrip-Solid (c ∷ s) (p, h))

-- `rstrip` stops at the last character that is no space.
pub rstrip_stops : (s : List ℕ) (c : ℕ) → is_space c ≡ false → rstrip (s ++ c ∷ []) ≡ s ++ c ∷ []
unfolding rstrip
rstrip_stops [] c h = rw h refl
rstrip_stops (d ∷ []) c h = rw (h, rstrip) refl
rstrip_stops (d ∷ e ∷ s) c h = rw (rstrip_stops (e ∷ s) c h) refl

pub rstrip_drops : (s : List ℕ) (c : ℕ) → is_space c ≡ true → rstrip (s ++ c ∷ []) ≡ rstrip s
unfolding rstrip
rstrip_drops [] c h = rw h refl
rstrip_drops (d ∷ s) c h = rw (rstrip_drops s c h) refl

pub lstrip_stops : (c : ℕ) (s : List ℕ) → is_space c ≡ false → lstrip (c ∷ s) ≡ c ∷ s
unfolding lstrip
lstrip_stops c s h = rw h refl

unsigned :
    (c : ℕ) (s : List ℕ) (n : ℕ)
    → is_digit c ≡ true
    → digits (c ∷ s) false 0 ≡ some n
    → signed (c ∷ s) ≡ some (pos n)
unfolding signed
unsigned c s n h e =
    let minus : (c == b'-') ≡ false = ground arith in
    let plus : (c == b'+') ≡ false = ground arith in rw minus (rw plus (rw e refl))

digits-numeral : (n : ℕ) → digits (numeral n) false 0 ≡ some n
unfolding numeral digits
digits-numeral n = digits-numeral_onto (suc n) n [] false (omega arith)

-- `int(str(n)) == n`.
pub parse_int-numeral : (n : ℕ) → parse_int (numeral n) ≡ some (pos n)
unfolding parse_int
parse_int-numeral n =
    ap signed (strip-Solid (numeral n) (Digits-Solid _ (numeral-Digits n)))
    ∙ go (numeral n) (numeral-cons n) (numeral-Digits n) (digits-numeral n)
  where
    go :
        (t : List ℕ)
        → (c : ℕ) × (s : List ℕ) × (t ≡ c ∷ s)
        → Digits t
        → digits t false 0 ≡ some n
        → signed t ≡ some (pos n)
    go [] (c, s, e) h d = absurd (cc)
    go (c ∷ s) _ (p, h) d = unsigned c s n p d
