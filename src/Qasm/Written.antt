-- ===== src/Qasm/Written.antt =====
-- Each line that `ir_to_openqasm` writes is a line on its own (server/qasm.py).
use mathlib.Core.List.{append_assoc}
use coda_node.Prelude.{
  ℕ, suc, ◌+◌, ◌≡◌, refl, ap, subst, true, not, all, false, List, [], ◌∷◌, ◌++◌, All, arith, codes,
  length, is_space, is_line_break, ℤ, pos, negsuc, numeral, int_numeral, Digits, numeral-Digits,
}
use coda_node.Regex.{is_word}
use coda_node.Qasm.Gates.{comma_joined}
use coda_node.Qasm.Printer.{qubit_text, qubit_texts, measure_lines, qubit_line, bit_lines}
use coda_node.Qasm.Lines.{Unbroken, IsLine, Unbroken-append}
use coda_node.Qasm.Texts.{operand_text, comma_joined_lem}
use coda_node.Qasm.Reading.{is_numeral_char}

-- For literals: the test computes.
tested : (t : List ℕ) → all (λ c. not (is_line_break c)) t ≡ true → Unbroken t
tested [] h = tt
tested (c ∷ t) h = (ground arith, tested t (ground arith))

Words-Unbroken : (t : List ℕ) → All (λ c. is_word c ≡ true) t → Unbroken t
Words-Unbroken [] h = tt
Words-Unbroken (c ∷ t) (p, h) = (ground arith, Words-Unbroken t h)

Digits-Unbroken : (t : List ℕ) → Digits t → Unbroken t
Digits-Unbroken [] h = tt
Digits-Unbroken (c ∷ t) (p, h) = (ground arith, Digits-Unbroken t h)

Numeral-Unbroken : (t : List ℕ) → All (λ c. is_numeral_char c ≡ true) t → Unbroken t
Numeral-Unbroken [] h = tt
Numeral-Unbroken (c ∷ t) (p, h) = (ground arith, Numeral-Unbroken t h)

numeral-Unbroken : (n : ℕ) → Unbroken (numeral n)
numeral-Unbroken n = Digits-Unbroken (numeral n) (numeral-Digits n)

int_numeral-Unbroken : (q : ℤ) → Unbroken (int_numeral q)
int_numeral-Unbroken (pos n) = numeral-Unbroken n
int_numeral-Unbroken (negsuc n) = (refl, numeral-Unbroken (suc n))

qubit_text-Unbroken : (q : ℤ) → Unbroken (qubit_text q)
qubit_text-Unbroken q =
    (refl, (refl, Unbroken-append (int_numeral q) (b']' ∷ []) (int_numeral-Unbroken q) (refl, tt)))

qubit_texts-Unbroken : (qs : List ℤ) → Unbroken (comma_joined (qubit_texts qs))
qubit_texts-Unbroken [] = tt
qubit_texts-Unbroken (q ∷ []) = qubit_text-Unbroken q
qubit_texts-Unbroken (q ∷ p ∷ qs) =
    Unbroken-append (qubit_text q) _ (qubit_text-Unbroken q)
      (refl, (refl, qubit_texts-Unbroken (p ∷ qs)))

operand_text-Unbroken : (q : ℤ) (qs : List ℤ) → Unbroken (operand_text q qs)
operand_text-Unbroken q qs = subst Unbroken (comma_joined_lem q qs) (qubit_texts-Unbroken (q ∷ qs))

-- A line from what stands before its semicolon.
IsLine-from :
    (c : ℕ) (t : List ℕ) → is_space c ≡ false → Unbroken (c ∷ t) → IsLine (c ∷ (t ++ b';' ∷ []))
IsLine-from c t s u = record {
  first = c;
  middle = t;
  form = refl;
  solid = s;
  unbroken = Unbroken-append (c ∷ t) (b';' ∷ []) u (refl, tt);
}

module _ (first : ℕ) (name : List ℕ) (words : All (λ c. is_word c ≡ true) (first ∷ name)) (q : ℤ)
    (qs : List ℤ) where
  solid_word : is_space first ≡ false
  solid_word = let h = words.0 in ground arith

  pub plain-IsLine : IsLine ((first ∷ name) ++ (b' ' ∷ (operand_text q qs ++ b';' ∷ [])))
  plain-IsLine =
      subst IsLine (ap (λ t. first ∷ t) (append_assoc name (b' ' ∷ operand_text q qs) (b';' ∷ [])))
        (IsLine-from first (name ++ (b' ' ∷ operand_text q qs)) solid_word (
          Unbroken-append (first ∷ name) (b' ' ∷ operand_text q qs)
            (Words-Unbroken (first ∷ name) words) (refl, operand_text-Unbroken q qs)))

  pub call-IsLine :
      (t : List ℕ)
      → All (λ c. is_numeral_char c ≡ true) t
      → IsLine
          ((first ∷ name) ++ (b'(' ∷ (t ++ (b')' ∷ (b' ' ∷ (operand_text q qs ++ b';' ∷ []))))))
  call-IsLine t h =
      let tail : List ℕ = b')' ∷ (b' ' ∷ operand_text q qs) in
      subst IsLine (simp append_assoc) (
        IsLine-from first (name ++ (b'(' ∷ (t ++ tail))) solid_word (
          Unbroken-append (first ∷ name) (b'(' ∷ (t ++ tail)) (Words-Unbroken (first ∷ name) words)
            (
              refl,
              Unbroken-append t tail (Numeral-Unbroken t h)
                  (refl, (refl, operand_text-Unbroken q qs)),
            )))

-- `keyword[n] name;`, the form of both declarations.
declared-IsLine :
    (c : ℕ) (keyword t name : List ℕ)
    → is_space c ≡ false
    → Unbroken (c ∷ keyword)
    → Unbroken t
    → Unbroken name
    → IsLine ((c ∷ keyword) ++ (t ++ (name ++ b';' ∷ [])))
declared-IsLine c keyword t name s u v x = subst IsLine (simp append_assoc) (
    IsLine-from c (keyword ++ (t ++ name)) s
      (Unbroken-append (c ∷ keyword) (t ++ name) u (Unbroken-append t name v x)))

pub qubit_line-IsLine : (n : ℤ) → IsLine (qubit_line n)
qubit_line-IsLine n =
    declared-IsLine b'q' (codes "ubit[") (int_numeral n) (codes "] q") refl
      (tested (codes "qubit[") refl) (int_numeral-Unbroken n) (tested (codes "] q") refl)

pub bit_lines-IsLine : (qs : List ℤ) → All IsLine (bit_lines qs)
bit_lines-IsLine [] = tt
bit_lines-IsLine (q ∷ qs) = (
  declared-IsLine b'b' (codes "it[") (numeral (length (q ∷ qs))) (codes "] c") refl
      (tested (codes "bit[") refl) (numeral-Unbroken (length (q ∷ qs))) (tested (codes "] c") refl),
  tt,
)

pub measure_lines-IsLine : (i : ℕ) (qs : List ℤ) → All IsLine (measure_lines i qs)
measure_lines-IsLine i [] = tt
measure_lines-IsLine i (q ∷ qs) = (
  subst IsLine (simp append_assoc) (
      declared-IsLine b'c' (codes "[") (numeral i)
        (codes "] = measure q[" ++ (int_numeral q ++ codes "]")) refl (tested (codes "c[") refl)
        (numeral-Unbroken i)
        (Unbroken-append (codes "] = measure q[") (int_numeral q ++ codes "]")
          (tested (codes "] = measure q[") refl)
          (Unbroken-append (int_numeral q) (codes "]") (int_numeral-Unbroken q) (refl, tt)))),
  measure_lines-IsLine (i + 1) qs,
)

pub header-IsLine : IsLine (codes "OPENQASM 3.0;")
header-IsLine = IsLine-from b'O' (codes "PENQASM 3.0") refl (tested (codes "OPENQASM 3.0") refl)

pub include-IsLine : IsLine (codes "include \"stdgates.inc\";")
include-IsLine =
    IsLine-from b'i' (codes "nclude \"stdgates.inc\"") refl
      (tested (codes "include \"stdgates.inc\"") refl)
