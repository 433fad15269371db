-- ===== src/Qasm/Reading.antt =====
-- How the loop of `openqasm_to_ir` reads the gate lines that the printer writes (server/qasm.py).
use coda_node.Prelude.{
  String, ℕ, ◌≡◌, ◌≢◌, refl, ap, ◌∙◌, Bool, true, false, not, ◌||◌, ◌&&◌, Option, none, some, List,
  [], ◌∷◌, ◌++◌, ◌==◌, leb, All, arith, codes, split, is_digit, ℤ, Float, strip-Solid, Solid,
}
use coda_node.Regex.{is_word}
use coda_node.Ir.{GateOp}
use coda_node.Qasm.Gates.{Floats, ok, openqasm_gate_to_ir}
use coda_node.Qasm.Patterns.{header_re, include_re, bit_decl_re, qubit_decl_re, measure_re, gate_re}
use coda_node.Qasm.Parser.{Circuit, params_of, add_gate, read_gate, read_line}
use coda_node.Qasm.Texts.{IsNatural, operand_text, gate_re_plain, gate_re_call}
use coda_node.Qasm.Texts.Indices.{find_all_lem}

-- The characters of a formatted float: digits, letters (`1e-05`, `inf`, `nan`), signs and a point.
abbrev pub is_numeral_char : ℕ → Bool
is_numeral_char c = is_digit c || (leb b'a' c && leb c b'z') || c == b'+' || c == b'-' || c == b'.'

abbrev pub IsNumeralText : List ℕ → Type 0
IsNumeralText t = (t ≢ []) × All (λ c. is_numeral_char c ≡ true) t

no_paren :
    (t : List ℕ) → All (λ c. is_numeral_char c ≡ true) t → All (λ c. not (c == b')') ≡ true) t
no_paren [] h = tt
no_paren (c ∷ t) (p, h) = (ground arith, no_paren t h)

solid : (t : List ℕ) → All (λ c. is_numeral_char c ≡ true) t → Solid t
solid [] h = tt
solid (c ∷ t) (p, h) = (ground arith, solid t h)

split_one :
    (c : ℕ) (t : List ℕ)
    → All (λ d. is_numeral_char d ≡ true) (c ∷ t)
    → split b',' (c ∷ t) ≡ (c ∷ t) ∷ []
unfolding split
split_one c [] (p, h) = let no : (c == b',') ≡ false = ground arith in rw no refl
split_one c (d ∷ t) (p, h) =
    let no : (c == b',') ≡ false = ground arith in rw no (rw (split_one d t h) refl)

module _ (f : Floats) (target : String) where
  -- One parameter is read as the float that its text stands for.
  params_one :
      (t : List ℕ) (x : Float)
      → IsNumeralText t
      → f.parse t ≡ some x
      → params_of f target (some t) ≡ ok (x ∷ [])
  params_one [] x (n, h) e = absurd (n refl)
  params_one (c ∷ t) x (n, h) e =
      rw (split_one c t h) (rw (strip-Solid (c ∷ t) (solid (c ∷ t) h)) (rw e refl))

  -- A line that starts like this gets as far as the pattern of gates.
  abbrev pub Enters : List ℕ → ℕ → Type 0
  Enters name mark =
      (t : List ℕ) (c : Circuit)
      → read_line f target (name ++ (mark ∷ t)) c
        ≡ read_gate f target (name ++ (mark ∷ t)) c (gate_re (name ++ (mark ∷ t)))

  pub Enters-rx : Enters (codes "rx") b'('
  unfolding read_line header_re include_re bit_decl_re qubit_decl_re measure_re
  Enters-rx t c = refl

  pub Enters-ry : Enters (codes "ry") b'('
  unfolding read_line header_re include_re bit_decl_re qubit_decl_re measure_re
  Enters-ry t c = refl

  pub Enters-rz : Enters (codes "rz") b'('
  unfolding read_line header_re include_re bit_decl_re qubit_decl_re measure_re
  Enters-rz t c = refl

  pub Enters-cz : Enters (codes "cz") b' '
  unfolding read_line header_re include_re bit_decl_re qubit_decl_re measure_re
  Enters-cz t c = refl

  pub Enters-id : Enters (codes "id") b' '
  unfolding read_line header_re include_re bit_decl_re qubit_decl_re measure_re
  Enters-id t c = refl

  pub Enters-sx : Enters (codes "sx") b' '
  unfolding read_line header_re include_re bit_decl_re qubit_decl_re measure_re
  Enters-sx t c = refl

  pub Enters-cx : Enters (codes "cx") b' '
  unfolding read_line header_re include_re bit_decl_re qubit_decl_re measure_re
  Enters-cx t c = refl

  module _ (q : ℤ) (qs : List ℤ) (naturals : All IsNatural (q ∷ qs)) (first : ℕ) (name : List ℕ)
      (words : All (λ c. is_word c ≡ true) (first ∷ name)) (op : GateOp) where
    add_gate_lem :
        (ps : Option (List ℕ)) (xs : List Float) (c : Circuit)
        → params_of f target ps ≡ ok xs
        → openqasm_gate_to_ir f (first ∷ name) xs (q ∷ qs) target ≡ ok op
        → add_gate f target
            (record { name = first ∷ name; params = ps; qubits = operand_text q qs })
            c
          ≡ ok (record c { gates = c.gates ++ op ∷ [] })
    unfolding add_gate
    add_gate_lem ps xs c h g = rw h (rw (find_all_lem q qs naturals) (rw g refl))

    pub read_plain :
        (c : Circuit)
        → Enters (first ∷ name) b' '
        → openqasm_gate_to_ir f (first ∷ name) [] (q ∷ qs) target ≡ ok op
        → read_line f target ((first ∷ name) ++ (b' ' ∷ (operand_text q qs ++ b';' ∷ []))) c
          ≡ ok (record c { gates = c.gates ++ op ∷ [] })
    read_plain c enters g =
        enters (operand_text q qs ++ b';' ∷ []) c
        ∙ ap (read_gate f target _ c) (gate_re_plain qs q naturals first name words)
        ∙ add_gate_lem none [] c refl g

    pub read_call :
        (c : Circuit) (t : List ℕ) (x : Float)
        → Enters (first ∷ name) b'('
        → IsNumeralText t
        → f.parse t ≡ some x
        → openqasm_gate_to_ir f (first ∷ name) (x ∷ []) (q ∷ qs) target ≡ ok op
        → read_line f target
            ((first ∷ name) ++ (b'(' ∷ (t ++ (b')' ∷ (b' ' ∷ (operand_text q qs ++ b';' ∷ []))))))
            c
          ≡ ok (record c { gates = c.gates ++ op ∷ [] })
    read_call c t x enters text e g =
        enters (t ++ (b')' ∷ (b' ' ∷ (operand_text q qs ++ b';' ∷ [])))) c
        ∙ ap (read_gate f target _ c)
            (gate_re_call qs q naturals first name t words (no_paren t text.1))
        ∙ add_gate_lem (some t) (x ∷ []) c (params_one t x text e) g
