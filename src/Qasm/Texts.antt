-- ===== src/Qasm/Texts.antt =====
-- What the patterns of server/qasm.py find in the operands that the printer writes.
pub mod Indices
use mathlib.Core.List.{append_assoc, append-nil}
use coda_node.Prelude.{
  ℕ, zero, suc, ◌+◌, ◌≤◌, ◌≡◌, ◌≢◌, refl, sym, ap, subst, ◌∙◌, Bool, true, false, not, Option, none,
  some, List, [], ◌∷◌, ◌++◌, ◌==◌, All, arith, codes, length, length-append, drop, is_space,
  is_digit, ℤ, pos, negsuc, numeral, int_numeral, Digits, numeral-Digits, numeral-cons,
  parse_int-numeral,
}
use coda_node.Regex.{Then, or_else, lit, many, is_word}
use coda_node.Regex.Runs.{Ends, many_lem, plus_lem, plus_run}
use coda_node.Qasm.Gates.{Result, ok, comma_joined}
use coda_node.Qasm.Patterns.{
  closed, bracketed, reference, further, references, operands, parameters, gate_re, found, find_all,
  GateLine,
}
use coda_node.Qasm.Parser.{ints}
use coda_node.Qasm.Printer.{qubit_text, qubit_texts}

abbrev pub IsNatural : ℤ → Type 0
IsNatural (pos n) = Unit
IsNatural (negsuc n) = ⊥

pub numeral-ne-nil : (n : ℕ) → numeral n ≢ []
numeral-ne-nil n e = let (c, s, h) = numeral-cons n in absurd (cc)

-- A reference such as `q[12]`, in front of any text.
pub reference_lem :
    {R : Type 0} (k : List ℕ → List ℕ → Then R) (w n : ℕ) (s : List ℕ) {r : R}
    → is_word w ≡ true
    → k (numeral n) (w ∷ (b'[' ∷ (numeral n ++ b']' ∷ []))) s ≡ some r
    → reference k (w ∷ (b'[' ∷ (numeral n ++ (b']' ∷ s)))) ≡ some r
reference_lem k w n s h g =
    plus_lem is_word (bracketed k) w [] (b'[' ∷ (numeral n ++ (b']' ∷ s))) (h, tt) refl
      (plus_run is_digit (closed k (w ∷ [])) (numeral n) (b']' ∷ s) (numeral-ne-nil n)
        (numeral-Digits n) refl g)

-- The operands behind the first.
rest_text : List ℤ → List ℕ
rest_text [] = []
rest_text (q ∷ qs) = b',' ∷ (b' ' ∷ (qubit_text q ++ rest_text qs))

pub operand_text : ℤ → List ℤ → List ℕ
operand_text q qs = qubit_text q ++ rest_text qs

pub comma_joined_lem :
    (q : ℤ) (qs : List ℤ) → comma_joined (qubit_texts (q ∷ qs)) ≡ operand_text q qs
unfolding operand_text rest_text
comma_joined_lem q [] = sym (append-nil (qubit_text q))
comma_joined_lem q (p ∷ qs) = rw (comma_joined_lem p qs) refl

operand_split :
    (q : ℕ) (qs : List ℤ) (s : List ℕ)
    → operand_text (pos q) qs ++ s ≡ b'q' ∷ (b'[' ∷ (numeral q ++ (b']' ∷ (rest_text qs ++ s))))
unfolding operand_text
operand_split q qs s = simp append_assoc

rest_split :
    (q : ℕ) (qs : List ℤ) (s : List ℕ)
    → rest_text (pos q ∷ qs) ++ s
      ≡ b',' ∷ (b' ' ∷ (b'q' ∷ (b'[' ∷ (numeral q ++ (b']' ∷ (rest_text qs ++ s))))))
unfolding rest_text
rest_split q qs s = simp append_assoc

length-le-rest_text : (qs : List ℤ) (s : List ℕ) → length qs ≤ length (rest_text qs ++ s)
unfolding rest_text
length-le-rest_text [] s = omega arith
length-le-rest_text (q ∷ qs) s = omega (
  arith,
  length-le-rest_text qs s,
  length-append (qubit_text q ++ rest_text qs) s,
  length-append (qubit_text q) (rest_text qs),
  length-append (rest_text qs) s,
)

-- How long the operands are, with what stands behind them.
abbrev long : ℕ → List ℤ → List ℕ → ℕ
long q qs s = length (b'q' ∷ (b'[' ∷ (numeral q ++ (b']' ∷ (rest_text qs ++ s)))))

length-le-long : (q : ℕ) (qs : List ℤ) (s : List ℕ) → length qs ≤ long q qs s
length-le-long q qs s =
    omega (arith, length-le-rest_text qs s, length-append (numeral q) (b']' ∷ (rest_text qs ++ s)))

module _ {R : Type 0} where
  further_lem :
      (fuel : ℕ) (k : List ℕ → Then R) (qs : List ℤ) (s : List ℕ) {r : R}
      → All IsNatural qs
      → length qs ≤ fuel
      → k (rest_text qs) (b';' ∷ s) ≡ some r
      → further fuel k (rest_text qs ++ (b';' ∷ s)) ≡ some r
  unfolding further rest_text
  further_lem zero k [] s h le g = g
  further_lem (suc fuel) k [] s h le g = g
  further_lem zero k (q ∷ qs) s h le g = absurd (omega arith)
  further_lem (suc fuel) k (negsuc q ∷ qs) s (h, hs) le g = elim h [ ]
  further_lem (suc fuel) k (pos q ∷ qs) s {r} (h, hs) le g =
      let after : List ℕ → Then R = λ t. k (b',' ∷ (b' ' ∷ (qubit_text (pos q) ++ t))) in
      let rest = further_lem fuel after qs s hs (omega arith) g in
      let here =
        reference_lem (λ d t. further fuel λ more. k (b',' ∷ (b' ' ∷ (t ++ more)))) b'q' q
          (rest_text qs ++ (b';' ∷ s)) refl rest in
      let read =
        many_lem is_space (λ b. reference λ _ t. further fuel λ more. k (b',' ∷ (b ++ (t ++ more))))
          (b' ' ∷ []) (b'q' ∷ (b'[' ∷ (numeral q ++ (b']' ∷ (rest_text qs ++ (b';' ∷ s))))))
          (refl, tt) refl here in
      let all : List ℕ =
        b',' ∷ (b' ' ∷ (b'q' ∷ (b'[' ∷ (numeral q ++ (b']' ∷ (rest_text qs ++ (b';' ∷ s))))))) in
      subst (λ u. further (suc fuel) k u ≡ some r) (sym (rest_split q qs (b';' ∷ s)))
        (ap (λ o. or_else o (k [] all)) read)

  references_lem :
      (k : List ℕ → Then R) (q : ℤ) (qs : List ℤ) (s : List ℕ) {r : R}
      → All IsNatural (q ∷ qs)
      → k (operand_text q qs) (b';' ∷ s) ≡ some r
      → references k (operand_text q qs ++ (b';' ∷ s)) ≡ some r
  unfolding operand_text rest_text
  references_lem k (negsuc q) qs s (h, hs) g = elim h [ ]
  references_lem k (pos q) qs s {r} (h, hs) g =
      subst (λ u. references k u ≡ some r) (sym (operand_split q qs (b';' ∷ s)))
        (reference_lem (λ _ t. further (long q qs (b';' ∷ s)) λ more. k (t ++ more)) b'q' q
          (rest_text qs ++ (b';' ∷ s)) refl
          (further_lem (long q qs (b';' ∷ s)) (λ more. k (qubit_text (pos q) ++ more)) qs s hs
            (length-le-long q qs (b';' ∷ s)) g))

-- The groups of a gate line without parameters, and with them.
module _ (qs : List ℤ) (q : ℤ) (naturals : All IsNatural (q ∷ qs)) where
  operands_lem :
      (name : List ℕ) (params : Option (List ℕ))
      → operands name params (b' ' ∷ (operand_text q qs ++ b';' ∷ []))
        ≡ some (record { name = name; params = params; qubits = operand_text q qs })
  unfolding operands operand_text
  operands_lem name params =
      many_lem is_space
        (λ _. references λ qubits.
          many is_space λ _.
            lit (codes ";") λ _. some (record { name = name; params = params; qubits = qubits }))
        [] (operand_text q qs ++ b';' ∷ []) tt refl
        (references_lem
          (λ qubits. many is_space λ _.
            lit (codes ";") λ _. some (record { name = name; params = params; qubits = qubits }))
          q qs [] naturals refl)

  pub gate_re_plain :
      (c : ℕ) (name : List ℕ)
      → All (λ d. is_word d ≡ true) (c ∷ name)
      → gate_re ((c ∷ name) ++ (b' ' ∷ (operand_text q qs ++ b';' ∷ [])))
        ≡ some (record { name = c ∷ name; params = none; qubits = operand_text q qs })
  unfolding gate_re
  gate_re_plain c name h =
      plus_lem is_word parameters c name (b' ' ∷ (operand_text q qs ++ b';' ∷ [])) h refl
        (operands_lem (c ∷ name) none)

  pub gate_re_call :
      (c : ℕ) (name params : List ℕ)
      → All (λ d. is_word d ≡ true) (c ∷ name)
      → All (λ d. not (d == b')') ≡ true) params
      → gate_re
          ((c ∷ name) ++ (b'(' ∷ (params ++ (b')' ∷ (b' ' ∷ (operand_text q qs ++ b';' ∷ []))))))
        ≡ some (record { name = c ∷ name; params = some params; qubits = operand_text q qs })
  unfolding gate_re
  gate_re_call c name params h g =
      plus_lem is_word parameters c name
        (b'(' ∷ (params ++ (b')' ∷ (b' ' ∷ (operand_text q qs ++ b';' ∷ []))))) h refl
        (ap
          (λ o. or_else o (
            operands (c ∷ name) none
              (b'(' ∷ (params ++ (b')' ∷ (b' ' ∷ (operand_text q qs ++ b';' ∷ [])))))))
          (many_lem (λ d. not (d == b')')) (λ ps. lit (codes ")") (operands (c ∷ name) (some ps)))
            params (b')' ∷ (b' ' ∷ (operand_text q qs ++ b';' ∷ []))) g refl
            (operands_lem (c ∷ name) (some params))))
