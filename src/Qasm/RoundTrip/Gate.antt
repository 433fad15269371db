-- ===== src/Qasm/RoundTrip/Gate.antt =====
-- One gate that is printed is read back (server/qasm.py).
use coda_node.Prelude.{
  ℕ, ◌≡◌, refl, sym, subst, String, true, some, List, [], ◌∷◌, ◌++◌, All, arith, codes, length,
  eq_iff, ℤ, Float, float_zero,
}
use coda_node.Regex.{is_word}
use coda_node.Ir.{
  NativeGate, rx, ry, rz, cz, iswap, cp, id, x90, y_minus_90, virtual_z, cnot, GateOp,
}
use coda_node.Ir.Spec.{LegalFor, IsWellShaped}
use coda_node.Ir.Validation.{validate_gate_shape_iff}
use coda_node.Qasm.Gates.{
  Floats, QasmError, ok, err, gate_op, openqasm_gate_to_ir, openqasm_gate_to_ir_cz,
  openqasm_gate_to_ir_cnot, comma_joined, ir_gate_to_openqasm_cz, ir_gate_to_openqasm_cnot,
}
use coda_node.Qasm.Printer.{qubit_texts}
use coda_node.Qasm.Parser.{Circuit, read_line}
use coda_node.Qasm.Lines.{IsLine}
use coda_node.Qasm.Texts.{IsNatural, comma_joined_lem}
use coda_node.Qasm.Reading.{
  IsNumeralText, Enters, Enters-rx, Enters-ry, Enters-rz, Enters-cz, Enters-id, Enters-sx,
  Enters-cx, read_plain, read_call,
}
use coda_node.Qasm.Written.{plain-IsLine, call-IsLine}

-- What the conversion relies on: a formatted float has no separator in it, and -π/2 is still close to
-- itself once it was printed and read.
pub record IsExact (f : Floats) : Type 0 where
  pub numerals : (x : Float) → IsNumeralText (f.format x)
  pub half_pi : Float
  pub half_pi_read : f.parse (f.format f.minus_half_pi) ≡ some half_pi
  pub half_pi_close : f.is_close half_pi ≡ true

-- `float(f"{x:.15g}") == x`
abbrev pub Reads : Floats → Float → Type 0
Reads f x = f.parse (f.format x) ≡ some x

-- The angles of a gate are floats that fifteen digits determine. A duration may be any float.
abbrev pub AnglesSurvive : Floats → NativeGate → List Float → Type 0
AnglesSurvive f id ps = Unit
AnglesSurvive f _ ps = All (Reads f) ps

abbrev pub Survives : Floats → GateOp → Type 0
Survives f op = AnglesSurvive f op.gate op.params

abbrev no_duration : NativeGate → List Float → List Float
no_duration id ps = float_zero ∷ []
no_duration _ ps = ps

-- The duration of an `id` gate is lost.
abbrev pub without_duration : GateOp → GateOp
without_duration op = record op { params = no_duration op.gate op.params }

-- The line stands on its own, and the loop reads the gate from it.
pub record Written (f : Floats) (target : String) (op : GateOp) (line : List ℕ) : Type 0 where
  pub is_line : IsLine line
  pub read :
      (c : Circuit)
      → read_line f target line c ≡ ok (record c { gates = c.gates ++ without_duration op ∷ [] })

one : (ps : List Float) → length ps ≡ 1 → (x : Float) × (ps ≡ x ∷ [])
one [] h = absurd (omega arith)
one (x ∷ []) h = (x, refl)
one (x ∷ y ∷ ps) h = absurd (omega arith)

none_left : (ps : List Float) → length ps ≡ 0 → ps ≡ []
none_left [] h = refl
none_left (x ∷ ps) h = absurd (omega arith)

gate_op_lem :
    (g : NativeGate) (qs : List ℤ) (ps : List Float)
    → IsWellShaped (record { gate = g; qubits = qs; params = ps })
    → gate_op g qs ps ≡ ok (record { gate = g; qubits = qs; params = ps })
unfolding gate_op
gate_op_lem g qs ps s =
    rw ((validate_gate_shape_iff (record { gate = g; qubits = qs; params = ps })).1 s) refl

injective : {A : Type 0} {a b : A} → ok a ≡ ok b → a ≡ b
injective h = cc

pub refused : {A : Type 0} {e : QasmError} {a : A} → err e ≡ ok a → ⊥
refused h = cc

abbrev pub op_of : ℤ → List ℤ → NativeGate → List Float → GateOp
op_of q qs g ps = record { gate = g; qubits = q ∷ qs; params = ps }

module _ (f : Floats) (exact : IsExact f) (q : ℤ) (qs : List ℤ)
    (naturals : All IsNatural (q ∷ qs)) where
  abbrev pub operands : List ℕ
  operands = comma_joined (qubit_texts (q ∷ qs))

  module _ (target : String) (first : ℕ) (name : List ℕ)
      (words : All (λ c. is_word c ≡ true) (first ∷ name)) (op : GateOp) where
    Written-plain :
        Enters f target (first ∷ name) b' '
        → openqasm_gate_to_ir f (first ∷ name) [] (q ∷ qs) target ≡ ok (without_duration op)
        → Written f target op ((first ∷ name) ++ (b' ' ∷ (operands ++ b';' ∷ [])))
    Written-plain enters g =
        subst (λ t. Written f target op ((first ∷ name) ++ (b' ' ∷ (t ++ b';' ∷ []))))
          (sym (comma_joined_lem q qs))
          (record {
            is_line = plain-IsLine first name words q qs;
            read = λ c.
                read_plain f target q qs naturals first name words (without_duration op) c enters g;
          })

    Written-call :
        (x y : Float)
        → Enters f target (first ∷ name) b'('
        → f.parse (f.format x) ≡ some y
        → openqasm_gate_to_ir f (first ∷ name) (y ∷ []) (q ∷ qs) target ≡ ok (without_duration op)
        → Written f target op
            ((first ∷ name) ++ (b'(' ∷ (f.format x ++ (b')' ∷ (b' ' ∷ (operands ++ b';' ∷ []))))))
    Written-call x y enters e g =
        subst
          (λ t.
            Written f target op
              ((first ∷ name) ++ (b'(' ∷ (f.format x ++ (b')' ∷ (b' ' ∷ (t ++ b';' ∷ [])))))))
          (sym (comma_joined_lem q qs))
          (record {
            is_line = call-IsLine first name words q qs (f.format x) (exact.numerals x).1;
            read = λ c.
                read_call f target q qs naturals first name words (without_duration op) c
                  (f.format x) y enters (exact.numerals x) e g;
          })

  -- The gates of the `cz` target.
  pub Written-cz :
      (g : NativeGate) (ps : List Float) (line : List ℕ)
      → ir_gate_to_openqasm_cz f g ps operands ≡ ok line
      → IsWellShaped (op_of q qs g ps)
      → LegalFor "cz" g
      → AnglesSurvive f g ps
      → Written f "cz" (op_of q qs g ps) line
  unfolding ir_gate_to_openqasm_cz openqasm_gate_to_ir openqasm_gate_to_ir_cz
  Written-cz rx (x ∷ []) line h s l (v, _) =
      subst (Written f "cz" (op_of q qs rx (x ∷ []))) (injective h) (
        Written-call "cz" b'r' (codes "x") (refl, (refl, tt)) (op_of q qs rx (x ∷ [])) x x
          (Enters-rx f "cz") v (gate_op_lem rx (q ∷ qs) (x ∷ []) s))
  Written-cz rx [] line h s l v = absurd (omega arith)
  Written-cz rx (x ∷ y ∷ ps) line h s l v = absurd (omega arith)
  Written-cz ry (x ∷ []) line h s l (v, _) =
      subst (Written f "cz" (op_of q qs ry (x ∷ []))) (injective h) (
        Written-call "cz" b'r' (codes "y") (refl, (refl, tt)) (op_of q qs ry (x ∷ [])) x x
          (Enters-ry f "cz") v (gate_op_lem ry (q ∷ qs) (x ∷ []) s))
  Written-cz ry [] line h s l v = absurd (omega arith)
  Written-cz ry (x ∷ y ∷ ps) line h s l v = absurd (omega arith)
  Written-cz rz (x ∷ []) line h s l (v, _) =
      subst (Written f "cz" (op_of q qs rz (x ∷ []))) (injective h) (
        Written-call "cz" b'r' (codes "z") (refl, (refl, tt)) (op_of q qs rz (x ∷ [])) x x
          (Enters-rz f "cz") v (gate_op_lem rz (q ∷ qs) (x ∷ []) s))
  Written-cz rz [] line h s l v = absurd (omega arith)
  Written-cz rz (x ∷ y ∷ ps) line h s l v = absurd (omega arith)
  Written-cz cz [] line h s l v = subst (Written f "cz" (op_of q qs cz [])) (injective h) (
      Written-plain "cz" b'c' (codes "z") (refl, (refl, tt)) (op_of q qs cz []) (Enters-cz f "cz")
        (gate_op_lem cz (q ∷ qs) [] s))
  Written-cz cz (x ∷ ps) line h s l v = absurd (omega arith)
  Written-cz id ps line h s l v = subst (Written f "cz" (op_of q qs id ps)) (injective h) (
      Written-plain "cz" b'i' (codes "d") (refl, (refl, tt)) (op_of q qs id ps) (Enters-id f "cz")
        (gate_op_lem id (q ∷ qs) (float_zero ∷ []) (record { qubits = s.qubits; params = refl })))
  Written-cz virtual_z ps line h s l v = absurd (cc ((eq_iff "cz" "cnot").1 l))
  Written-cz iswap ps line h s l v = absurd (refused h)
  Written-cz cp ps line h s l v = absurd (refused h)
  Written-cz x90 ps line h s l v = absurd (refused h)
  Written-cz y_minus_90 ps line h s l v = absurd (refused h)
  Written-cz cnot ps line h s l v = absurd (refused h)

  -- The gates of the `cnot` target.
  pub Written-cnot :
      (g : NativeGate) (ps : List Float) (line : List ℕ)
      → ir_gate_to_openqasm_cnot f g ps operands ≡ ok line
      → IsWellShaped (op_of q qs g ps)
      → AnglesSurvive f g ps
      → Written f "cnot" (op_of q qs g ps) line
  unfolding ir_gate_to_openqasm_cnot openqasm_gate_to_ir openqasm_gate_to_ir_cnot
  Written-cnot x90 [] line h s v = subst (Written f "cnot" (op_of q qs x90 [])) (injective h) (
      Written-plain "cnot" b's' (codes "x") (refl, (refl, tt)) (op_of q qs x90 [])
        (Enters-sx f "cnot") (gate_op_lem x90 (q ∷ qs) [] s))
  Written-cnot x90 (x ∷ ps) line h s v = absurd (omega arith)
  Written-cnot y_minus_90 [] line h s v =
      subst (Written f "cnot" (op_of q qs y_minus_90 [])) (injective h) (
        Written-call "cnot" b'r' (codes "y") (refl, (refl, tt)) (op_of q qs y_minus_90 [])
          f.minus_half_pi exact.half_pi (Enters-ry f "cnot") exact.half_pi_read
          (rw exact.half_pi_close (gate_op_lem y_minus_90 (q ∷ qs) [] s)))
  Written-cnot y_minus_90 (x ∷ ps) line h s v = absurd (omega arith)
  Written-cnot virtual_z (x ∷ []) line h s (v, _) =
      subst (Written f "cnot" (op_of q qs virtual_z (x ∷ []))) (injective h) (
        Written-call "cnot" b'r' (codes "z") (refl, (refl, tt)) (op_of q qs virtual_z (x ∷ [])) x x
          (Enters-rz f "cnot") v (gate_op_lem virtual_z (q ∷ qs) (x ∷ []) s))
  Written-cnot virtual_z [] line h s v = absurd (omega arith)
  Written-cnot virtual_z (x ∷ y ∷ ps) line h s v = absurd (omega arith)
  Written-cnot cnot [] line h s v = subst (Written f "cnot" (op_of q qs cnot [])) (injective h) (
      Written-plain "cnot" b'c' (codes "x") (refl, (refl, tt)) (op_of q qs cnot [])
        (Enters-cx f "cnot") (gate_op_lem cnot (q ∷ qs) [] s))
  Written-cnot cnot (x ∷ ps) line h s v = absurd (omega arith)
  Written-cnot id ps line h s v = subst (Written f "cnot" (op_of q qs id ps)) (injective h) (
      Written-plain "cnot" b'i' (codes "d") (refl, (refl, tt)) (op_of q qs id ps)
        (Enters-id f "cnot")
        (gate_op_lem id (q ∷ qs) (float_zero ∷ []) (record { qubits = s.qubits; params = refl })))
  Written-cnot rx ps line h s v = absurd (refused h)
  Written-cnot ry ps line h s v = absurd (refused h)
  Written-cnot rz ps line h s v = absurd (refused h)
  Written-cnot cz ps line h s v = absurd (refused h)
  Written-cnot iswap ps line h s v = absurd (refused h)
  Written-cnot cp ps line h s v = absurd (refused h)
