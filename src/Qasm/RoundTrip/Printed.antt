-- ===== src/Qasm/RoundTrip/Printed.antt =====
-- A gate that is printed for a target is read back (server/qasm.py).
use coda_node.Prelude.{
  ℕ, ◌≤◌, ◌≡◌, sym, subst, inl, inr, String, List, [], ◌∷◌, All, arith, str_eq, eq_iff, Bool-cases,
  ℤ, Float,
}
use coda_node.Ir.{NativeGate, rx, GateOp}
use coda_node.Ir.Spec.{qubit_arity, LegalFor, IsWellShaped}
use coda_node.Qasm.Gates.{Floats, ok}
use coda_node.Qasm.Printer.{ir_gate_to_openqasm}
use coda_node.Qasm.Texts.{IsNatural}
use coda_node.Qasm.RoundTrip.Gate.{
  IsExact, AnglesSurvive, Survives, Written, op_of, Written-cz, Written-cnot, refused,
}

arity_pos : (g : NativeGate) → 1 ≤ qubit_arity g
arity_pos rx = omega arith
arity_pos _ = omega arith

module _ (f : Floats) (exact : IsExact f) where
  module _ (q : ℤ) (qs : List ℤ) (naturals : All IsNatural (q ∷ qs)) (g : NativeGate)
      (ps : List Float) (line : List ℕ) (s : IsWellShaped (op_of q qs g ps))
      (v : AnglesSurvive f g ps) where
    -- Which target a circuit is printed for is a test on its name.
    dispatched :
        (target : String)
        → ir_gate_to_openqasm f (op_of q qs g ps) target ≡ ok line
        → LegalFor target g
        → Written f target (op_of q qs g ps) line
    unfolding ir_gate_to_openqasm
    dispatched target h l = elim (Bool-cases (str_eq target "cz")) [
      | inl e ↦
          subst
            (λ t.
              ir_gate_to_openqasm f (op_of q qs g ps) t ≡ ok line
              → LegalFor t g
              → Written f t (op_of q qs g ps) line)
            (sym ((eq_iff target "cz").0 e))
            (λ h l. Written-cz f exact q qs naturals g ps line h s l v) h l
      | inr n ↦ elim (Bool-cases (str_eq target "cnot")) [
        | inl e ↦
            subst
              (λ t.
                ir_gate_to_openqasm f (op_of q qs g ps) t ≡ ok line
                → Written f t (op_of q qs g ps) line)
              (sym ((eq_iff target "cnot").0 e))
              (λ h. Written-cnot f exact q qs naturals g ps line h s v) h
        | inr m ↦ absurd (refused (rw n at (rw m at h)))
      ]
    ]

  gate-Written :
      (target : String) (g : NativeGate) (qs : List ℤ) (ps : List Float) (line : List ℕ)
      → let op : GateOp = record { gate = g; qubits = qs; params = ps } in
        ir_gate_to_openqasm f op target ≡ ok line
        → IsWellShaped op
        → LegalFor target g
        → All IsNatural qs
        → AnglesSurvive f g ps
        → Written f target op line
  gate-Written target g [] ps line h s l naturals v = absurd (omega (arith, arity_pos g))
  gate-Written target g (q ∷ qs) ps line h s l naturals v =
      dispatched q qs naturals g ps line s v target h l

  -- A gate of a well-formed circuit that the printer accepts is read back from its line.
  pub printed-Written :
      (target : String) (op : GateOp) (line : List ℕ)
      → ir_gate_to_openqasm f op target ≡ ok line
      → IsWellShaped op
      → LegalFor target op.gate
      → All IsNatural op.qubits
      → Survives f op
      → Written f target op line
  printed-Written target op line = gate-Written target op.gate op.qubits op.params line
