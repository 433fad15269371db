-- ===== src/Qasm/Patterns.antt =====
-- The regular expressions of server/qasm.py, each as a matcher of the start of a line that answers with
-- its groups.
use coda_node.Prelude.{
  ℕ, zero, suc, not, ◌||◌, Option, none, some, List, [], ◌∷◌, ◌++◌, ◌==◌, length, drop, codes,
  is_space, is_digit,
}
use coda_node.Regex.{Then, or_else, is_word, lit, many, plus}

-- _HEADER_RE
unfoldable pub header_re : List ℕ → Option (Unit {0})
header_re = lit (codes "OPENQASM") (
    plus is_space
      λ _. plus (λ c. is_digit c || c == b'.') λ _. many is_space λ _. lit (codes ";") λ _. some tt)

-- _INCLUDE_RE
unfoldable pub include_re : List ℕ → Option (Unit {0})
include_re = lit (codes "include") (
    plus is_space λ _. lit (codes "\"") (
      plus (λ c. not (c == b'"'))
        λ _. lit (codes "\"") (many is_space λ _. lit (codes ";") λ _. some tt)))

abbrev pub sized : List ℕ → List ℕ → Option (List ℕ)
sized size =
    lit (codes "]")
      (plus is_space λ _. plus is_word λ _. many is_space λ _. lit (codes ";") λ _. some size)

-- A declaration of a register: its size.
abbrev declaration : List ℕ → List ℕ → Option (List ℕ)
declaration keyword = lit keyword (plus is_digit sized)

-- _QUBIT_DECL_RE
unfoldable pub qubit_decl_re : List ℕ → Option (List ℕ)
qubit_decl_re = declaration (codes "qubit[")

-- _BIT_DECL_RE
unfoldable pub bit_decl_re : List ℕ → Option (List ℕ)
bit_decl_re = declaration (codes "bit[")

-- `\w+\[(\d+)]`: the index, and the text.
module _ {R : Type 0} (k : List ℕ → List ℕ → Then R) where
  abbrev pub closed : List ℕ → List ℕ → Then R
  closed w d = lit (codes "]") (k d (w ++ (b'[' ∷ (d ++ b']' ∷ []))))

  abbrev pub bracketed : List ℕ → Then R
  bracketed w = lit (codes "[") (plus is_digit (closed w))

  abbrev pub reference : Then R
  reference = plus is_word bracketed

-- The right side of a measurement.
abbrev pub measured : List ℕ → List ℕ → Option (List ℕ)
measured q = many is_space λ _. lit (codes ";") λ _. some q

abbrev pub measuring : List ℕ → Option (List ℕ)
measuring = lit (codes "measure") (plus is_space λ _. reference λ q _. measured q)

abbrev pub assigned : List ℕ → Option (List ℕ)
assigned = many is_space λ _. lit (codes "=") (many is_space λ _. measuring)

-- _MEASURE_RE: the second group, which is the qubit.
unfoldable pub measure_re : List ℕ → Option (List ℕ)
measure_re = reference λ _ _. assigned

-- `(?:\s*,\s*\w+\[\d+])*`; no round matches the empty text, so the length of the text is fuel enough.
unfoldable pub further : {R : Type 0} → ℕ → (List ℕ → Then R) → Then R
further zero k s = k [] s
further (suc fuel) k s =
    or_else
      (many is_space
        (λ a. lit (codes ",") (
          many is_space
            λ b. reference λ _ t. further fuel λ more. k (a ++ (b',' ∷ (b ++ (t ++ more))))))
        s)
      (k [] s)

abbrev pub references : {R : Type 0} → (List ℕ → Then R) → Then R
references k s = reference (λ _ t. further (length s) λ more. k (t ++ more)) s

-- The groups of _GATE_RE.
pub record GateLine : Type 0 where
  pub name : List ℕ
  pub params : Option (List ℕ)
  pub qubits : List ℕ

unfoldable pub operands : List ℕ → Option (List ℕ) → List ℕ → Option GateLine
operands name params = plus is_space λ _. references λ qubits.
    many is_space
      λ _. lit (codes ";") λ _. some (record { name = name; params = params; qubits = qubits })

-- `(?:\(([^)]*)\))?`, and the operands.
abbrev pub parameters : List ℕ → List ℕ → Option GateLine
parameters name s =
    or_else
      (lit (codes "(")
        (many (λ c. not (c == b')')) λ params. lit (codes ")") (operands name (some params))) s)
      (operands name none s)

-- _GATE_RE
unfoldable pub gate_re : List ℕ → Option GateLine
gate_re = plus is_word parameters

abbrev pub found : (List ℕ → List (List ℕ)) → List ℕ → Option (List ℕ × List ℕ) → List (List ℕ)
found again s (some (index, rest)) = index ∷ again rest
found again s none = again (drop 1 s)

-- `_QUBIT_REF_RE.findall(text)`: behind a match the search goes on, else one character further. Each
-- round takes a character at least.
unfoldable pub find_all : ℕ → List ℕ → List (List ℕ)
find_all zero s = []
find_all (suc fuel) s =
    found (find_all fuel) s (reference {R = List ℕ × List ℕ} (λ index _ rest. some (index, rest)) s)
