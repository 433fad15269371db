-- ===== src/Regex.antt =====
-- Python's regular expressions, as far as the program uses them: `re` tries the alternatives in order
-- and goes back where what follows fails. A matcher takes what follows as a function of the rest of
-- the text. The classes are ASCII.
pub mod Runs
use coda_node.Prelude.{
  ℕ, Bool, true, false, ◌&&◌, ◌||◌, Option, none, some, List, [], ◌∷◌, if◌then◌else◌, leb, ◌==◌,
  is_digit,
}

-- What follows: the answer for the rest of the text, if it matches.
abbrev pub Then : Type 0 → Type 0
Then R = List ℕ → Option R

abbrev pub or_else {ℓ} : {R : Type ℓ} → Option R → Option R → Option R
or_else (some r) o = some r
or_else none o = o

-- `\w`
abbrev pub is_word : ℕ → Bool
is_word c = is_digit c || (leb b'a' c && leb c b'z') || (leb b'A' c && leb c b'Z') || c == b'_'

module _ {R : Type 0} where
  -- a literal
  abbrev pub lit : List ℕ → Then R → Then R
  lit [] k s = k s
  lit (c ∷ t) k [] = none
  lit (c ∷ t) k (d ∷ s) = if c == d then lit t k s else none

  -- `[p]*`, the longest run first; what follows is given the run.
  abbrev pub many : (ℕ → Bool) → (List ℕ → Then R) → Then R
  many p k [] = k [] []
  many p k (c ∷ s) =
      let longer = many p (λ run. k (c ∷ run)) s in
      if p c then or_else longer (k [] (c ∷ s)) else k [] (c ∷ s)

  -- `[p]+`
  abbrev pub plus : (ℕ → Bool) → (List ℕ → Then R) → Then R
  plus p k [] = none
  plus p k (c ∷ s) = if p c then many p (λ run. k (c ∷ run)) s else none
