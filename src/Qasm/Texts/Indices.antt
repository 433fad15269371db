-- ===== src/Qasm/Texts/Indices.antt =====
-- The indices that `_QUBIT_REF_RE.findall` finds in printed operands (server/qasm.py).
use mathlib.Core.List.{append_assoc}
use coda_node.Prelude.{
  ℕ, zero, suc, ◌≤◌, ◌≡◌, refl, ap, ◌∙◌, some, List, [], ◌∷◌, ◌++◌, All, arith, length,
  length-append, ℤ, pos, negsuc, numeral, parse_int-numeral,
}
use coda_node.Qasm.Gates.{ok}
use coda_node.Qasm.Patterns.{found, find_all}
use coda_node.Qasm.Parser.{ints}
use coda_node.Qasm.Printer.{qubit_text}
use coda_node.Qasm.Texts.{IsNatural, reference_lem, rest_text, operand_text}

-- The indices that are found in the operands are those that were written.
find_here :
    (fuel q : ℕ) (s : List ℕ)
    → find_all (suc fuel) (b'q' ∷ (b'[' ∷ (numeral q ++ (b']' ∷ s)))) ≡ numeral q ∷ find_all fuel s
unfolding find_all
find_here fuel q s =
    ap (found (find_all fuel) (b'q' ∷ (b'[' ∷ (numeral q ++ (b']' ∷ s)))))
      (reference_lem (λ index _ rest. some (index, rest)) b'q' q s refl refl)

find_all_nil : (fuel : ℕ) → find_all fuel [] ≡ []
unfolding find_all
find_all_nil zero = refl
find_all_nil (suc fuel) = find_all_nil fuel

find_first :
    (fuel q : ℕ) (s : List ℕ)
    → find_all (suc fuel) (qubit_text (pos q) ++ s) ≡ numeral q ∷ find_all fuel s
find_first fuel q s =
    ap (λ u. find_all (suc fuel) (b'q' ∷ (b'[' ∷ u))) (append_assoc (numeral q) (b']' ∷ []) s)
    ∙ find_here fuel q s

find_next :
    (fuel q : ℕ) (qs : List ℤ)
    → find_all (suc (suc (suc fuel))) (rest_text (pos q ∷ qs))
      ≡ numeral q ∷ find_all fuel (rest_text qs)
unfolding find_all rest_text
find_next fuel q qs = find_first fuel q (rest_text qs)

ints_next :
    (q : ℕ) (ts : List (List ℕ)) (qs : List ℤ)
    → ints ts ≡ ok qs
    → ints (numeral q ∷ ts) ≡ ok (pos q ∷ qs)
ints_next q ts qs h = rw (parse_int-numeral q) (rw h refl)

find_rest :
    (fuel : ℕ) (qs : List ℤ)
    → All IsNatural qs
    → length (rest_text qs) ≤ fuel
    → ints (find_all fuel (rest_text qs)) ≡ ok qs
unfolding rest_text
find_rest fuel [] h le = rw (find_all_nil fuel) refl
find_rest fuel (negsuc q ∷ qs) (h, hs) le = elim h [ ]
find_rest zero (pos q ∷ qs) h le = absurd (omega arith)
find_rest (suc zero) (pos q ∷ qs) h le = absurd (omega arith)
find_rest (suc (suc zero)) (pos q ∷ qs) h le = absurd (omega arith)
find_rest (suc (suc (suc fuel))) (pos q ∷ qs) (h, hs) le =
    ap ints (find_next fuel q qs)
    ∙ ints_next q (find_all fuel (rest_text qs)) qs
        (find_rest fuel qs hs (omega (arith, length-append (qubit_text (pos q)) (rest_text qs))))

pub find_all_lem :
    (q : ℤ) (qs : List ℤ)
    → All IsNatural (q ∷ qs)
    → ints (find_all (length (operand_text q qs)) (operand_text q qs)) ≡ ok (q ∷ qs)
unfolding operand_text
find_all_lem (negsuc q) qs (h, hs) = elim h [ ]
find_all_lem (pos q) qs (h, hs) =
    let fuel : ℕ = suc (length ((numeral q ++ b']' ∷ []) ++ rest_text qs)) in
    ap ints (find_first fuel q (rest_text qs))
    ∙ ints_next q (find_all fuel (rest_text qs)) qs (
        find_rest fuel qs hs (omega (arith, length-append (numeral q ++ b']' ∷ []) (rest_text qs))))
