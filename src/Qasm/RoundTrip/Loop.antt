-- ===== src/Qasm/RoundTrip/Loop.antt =====
-- The loop over the lines of a printed circuit (server/qasm.py).
use mathlib.Core.List.{append_assoc, append-nil}
use coda_node.Prelude.{
  ℕ, ◌+◌, ◌≡◌, refl, sym, ap, subst, ◌∙◌, String, some, List, [], ◌∷◌, ◌++◌, All, codes, length,
  is_digit, is_space, strip, lstrip, rstrip, ℤ, pos, negsuc, numeral, numeral-Digits,
  parse_int-numeral,
}
use coda_node.Regex.{many, lit}
use coda_node.Regex.Runs.{plus_run, many_lem}
use coda_node.Ir.{GateOp}
use coda_node.Ir.Spec.{IsQubit, IsWellShaped, IsPlaced}
use coda_node.Qasm.Gates.{Floats, Result, ok, err, ◌>>=◌}
use coda_node.Qasm.Patterns.{
  header_re, include_re, bit_decl_re, qubit_decl_re, measure_re, sized, assigned, measured,
  measuring,
}
use coda_node.Qasm.Parser.{
  Circuit, empty_circuit, read_line, read_lines, read_declaration, read_measure,
}
use coda_node.Qasm.Printer.{gate_lines, ir_gate_to_openqasm, measure_lines, qubit_line, bit_lines}
use coda_node.Qasm.Lines.{IsLine, strip_line}
use coda_node.Qasm.Texts.{IsNatural, numeral-ne-nil, reference_lem}
use coda_node.Qasm.Written.{measure_lines-IsLine, bit_lines-IsLine}
use coda_node.Qasm.RoundTrip.Gate.{IsExact, Survives, without_duration, refused}
use coda_node.Qasm.RoundTrip.Printed.{printed-Written}

abbrev pub without_durations : List GateOp → List GateOp
without_durations [] = []
without_durations (op ∷ ops) = without_duration op ∷ without_durations ops

pub naturals : (n : ℤ) (qs : List ℤ) → All (IsQubit n) qs → All IsNatural qs
naturals n [] h = tt
naturals (pos n) (pos q ∷ qs) (h, hs) = (tt, naturals (pos n) qs hs)
naturals (pos n) (negsuc q ∷ qs) (h, hs) = elim h [ ]
naturals (negsuc n) (pos q ∷ qs) (h, hs) = elim h [ ]
naturals (negsuc n) (negsuc q ∷ qs) (h, hs) = elim h [ ]

-- What a chain that returns went through.
pub bind_ok :
    {A B : Type 0} (first : Result A) (next : A → Result B) {b : B}
    → (first >>= next) ≡ ok b
    → (a : A) × (next a ≡ ok b) × (first ≡ ok a)
bind_ok (err e) next h = absurd (refused h)
bind_ok (ok a) next h = (a, h, refl)

pub injective : {A : Type 0} {a b : A} → ok a ≡ ok b → a ≡ b
injective h = cc

-- `measure q[3];`, and what stands before it.
measuring_lem :
    (q : ℕ) → measuring (codes "measure q[" ++ (numeral q ++ codes "];")) ≡ some (numeral q)
measuring_lem q = reference_lem (λ index _. measured index) b'q' q (codes ";") refl refl

assigned_lem :
    (q : ℕ) → assigned (codes " = measure q[" ++ (numeral q ++ codes "];")) ≡ some (numeral q)
assigned_lem q =
    many_lem is_space (λ _. lit (codes "=") (many is_space λ _. measuring)) (codes " ")
      (codes "= measure q[" ++ (numeral q ++ codes "];")) (refl, tt) refl
      (many_lem is_space (λ _. measuring) (codes " ")
        (codes "measure q[" ++ (numeral q ++ codes "];")) (refl, tt) refl (measuring_lem q))

measure_re_lem :
    (i q : ℕ)
    → measure_re
        (codes "c[" ++ (numeral i ++ (codes "] = measure q[" ++ (numeral q ++ codes "];"))))
      ≡ some (numeral q)
unfolding measure_re
measure_re_lem i q =
    reference_lem (λ _ _. assigned) b'c' i (codes " = measure q[" ++ (numeral q ++ codes "];")) refl
      (assigned_lem q)

qubit_decl_re_lem : (n : ℕ) → qubit_decl_re (qubit_line (pos n)) ≡ some (numeral n)
unfolding qubit_decl_re
qubit_decl_re_lem n =
    plus_run is_digit sized (numeral n) (codes "] q;") (numeral-ne-nil n) (numeral-Digits n) refl
      refl

bit_decl_re_lem :
    (n : ℕ) → bit_decl_re (codes "bit[" ++ (numeral n ++ codes "] c;")) ≡ some (numeral n)
unfolding bit_decl_re
bit_decl_re_lem n =
    plus_run is_digit sized (numeral n) (codes "] c;") (numeral-ne-nil n) (numeral-Digits n) refl
      refl

module _ (f : Floats) (target : String) where
  -- One round of the loop, at a line that is read.
  pub step :
      (l : List ℕ) (ls : List (List ℕ)) (c : Circuit) {d : Circuit}
      → IsLine l
      → read_line f target l c ≡ ok d
      → read_lines f target (l ∷ ls) c ≡ read_lines f target ls d
  unfolding read_lines
  step l ls c p h =
      ap (λ t. read_line f target t c >>= read_lines f target ls) (strip_line l p)
      ∙ ap (λ r. r >>= read_lines f target ls) h

  -- A measurement is read from its line.
  read_measurement :
      (i q : ℕ) (c : Circuit)
      → read_line f target
          (codes "c[" ++ (numeral i ++ (codes "] = measure q[" ++ (numeral q ++ codes "];"))))
          c
        ≡ ok (record c { measurements = c.measurements ++ pos q ∷ [] })
  unfolding read_line header_re include_re bit_decl_re qubit_decl_re
  read_measurement i q c =
      ap
        (read_measure f target
          (codes "c[" ++ (numeral i ++ (codes "] = measure q[" ++ (numeral q ++ codes "];")))) c)
        (measure_re_lem i q)
      ∙ rw (parse_int-numeral q) refl

  pub read_measurements :
      (i : ℕ) (qs : List ℤ) (c : Circuit)
      → All IsNatural qs
      → read_lines f target (measure_lines i qs) c
        ≡ ok (record c { measurements = c.measurements ++ qs })
  read_measurements i [] c h =
      unfold read_lines in
      ap (λ ms. ok (record c { measurements = ms })) (sym (append-nil c.measurements))
  read_measurements i (negsuc q ∷ qs) c (h, hs) = elim h [ ]
  read_measurements i (pos q ∷ qs) c (h, hs) =
      step _ (measure_lines (i + 1) qs) c (measure_lines-IsLine i (pos q ∷ [])).0
        (read_measurement i q c)
      ∙ read_measurements (i + 1) qs (record c { measurements = c.measurements ++ pos q ∷ [] }) hs
      ∙ ap (λ ms. ok (record c { measurements = ms })) (append_assoc c.measurements (pos q ∷ []) qs)

  pub read_qubit_line :
      (n : ℕ)
      → read_line f target (qubit_line (pos n)) empty_circuit
        ≡ ok (record { num_qubits = some (pos n); gates = []; measurements = [] })
  unfolding read_line header_re include_re bit_decl_re
  read_qubit_line n =
      ap (read_declaration f target (qubit_line (pos n)) empty_circuit) (qubit_decl_re_lem n)
      ∙ rw (parse_int-numeral n) refl

  read_bit_line :
      (n : ℕ) (c : Circuit)
      → read_line f target (codes "bit[" ++ (numeral n ++ codes "] c;")) c ≡ ok c
  unfolding read_line header_re include_re
  read_bit_line n c = rw (bit_decl_re_lem n) refl

  -- The declaration of bits, if there is one, is skipped.
  pub read_bit_lines :
      (qs : List ℤ) (rest : List (List ℕ)) (c : Circuit)
      → read_lines f target (bit_lines qs ++ rest) c ≡ read_lines f target rest c
  read_bit_lines [] rest c = refl
  read_bit_lines (q ∷ qs) rest c =
      step (codes "bit[" ++ (numeral (length (q ∷ qs)) ++ codes "] c;")) rest c
        (bit_lines-IsLine (q ∷ qs)).0 (read_bit_line (length (q ∷ qs)) c)

  -- The header and the include are skipped.
  pub read_preamble :
      (rest : List (List ℕ)) (c : Circuit)
      → read_lines f target (codes "OPENQASM 3.0;" ∷ codes "include \"stdgates.inc\";" ∷ rest) c
        ≡ read_lines f target rest c
  unfolding read_lines read_line header_re include_re strip lstrip rstrip
  read_preamble rest c = refl

  module _ (exact : IsExact f) (n : ℤ) where
    -- Gates that are printed are read back, each behind the ones before it.
    pub read_gates :
        (ops : List GateOp) (lines rest : List (List ℕ))
        → gate_lines f target ops ≡ ok lines
        → All IsWellShaped ops
        → All (IsPlaced target n) ops
        → All (Survives f) ops
        → All IsLine lines
          × ((c : Circuit)
              → read_lines f target (lines ++ rest) c
                ≡ read_lines f target rest (record c { gates = c.gates ++ without_durations ops }))
    unfolding gate_lines
    read_gates [] lines rest h s p v =
        subst
          (λ ls.
            All IsLine ls
            × ((c : Circuit)
                → read_lines f target (ls ++ rest) c
                  ≡ read_lines f target rest (record c { gates = c.gates ++ [] })))
          (injective h)
          (
            tt,
            λ c.
                ap (λ gs. read_lines f target rest (record c { gates = gs }))
                  (sym (append-nil c.gates)),
          )
    read_gates (op ∷ ops) lines rest h (s, ss) (p, ps) (v, vs) =
        let (line, h1, e) =
          bind_ok (ir_gate_to_openqasm f op target)
            (λ line. gate_lines f target ops >>= λ ls. ok (line ∷ ls)) h in
        let (ls, h2, e2) = bind_ok (gate_lines f target ops) (λ ls. ok (line ∷ ls)) h1 in
        let one =
          printed-Written f exact target op line e s p.legal (naturals n op.qubits p.in_range) v in
        let others = read_gates ops ls rest e2 ss ps vs in
        subst
          (λ t.
            All IsLine t
            × ((c : Circuit)
                → read_lines f target (t ++ rest) c
                  ≡ read_lines f target rest
                      (record c { gates = c.gates ++ without_durations (op ∷ ops) })))
          (injective h2)
          (
            (one.is_line, others.0),
            λ c.
                step line (ls ++ rest) c one.is_line (one.read c)
                ∙ others.1 (record c { gates = c.gates ++ without_duration op ∷ [] })
                ∙ ap (λ gs. read_lines f target rest (record c { gates = gs }))
                    (append_assoc c.gates (without_duration op ∷ []) (without_durations ops)),
          )
