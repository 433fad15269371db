-- ===== src/Qasm/Printable.antt =====
-- Which circuits `ir_to_openqasm` prints (server/qasm.py).
use coda_node.Prelude.{
  ℕ, ◌≡◌, refl, sym, subst, ◌∙◌, inl, inr, ◌↔◌, String, true, false, List, [], ◌∷◌, All, str_eq,
  eq_iff, Bool-cases, arith, ℤ, Float,
}
use coda_node.Ir.{
  NativeGate, rx, ry, rz, cz, iswap, cp, id, x90, y_minus_90, virtual_z, cnot, GateOp, NativeGateIr,
  valid, validate,
}
use coda_node.Ir.Spec.{LegalFor, IsWellShaped, IsPlaced}
use coda_node.Ir.Validation.{validate_iff}
use coda_node.Qasm.Gates.{
  Floats, Result, ok, err, ◌>>=◌, ir_gate_to_openqasm_cz, ir_gate_to_openqasm_cnot,
}
use coda_node.Qasm.Printer.{ir_gate_to_openqasm, gate_lines, ir_to_openqasm}
use coda_node.Qasm.RoundTrip.Gate.{refused}
use coda_node.Qasm.RoundTrip.Loop.{bind_ok}

abbrev Prints : Floats → String → GateOp → Type 0
Prints f target op = (line : List ℕ) × (ir_gate_to_openqasm f op target ≡ ok line)

-- The rotations have no OpenQASM form in the `cnot` gate set, though circuits for it may hold them.
abbrev pub IsNoRotation : NativeGate → Type 0
IsNoRotation rx = ⊥
IsNoRotation ry = ⊥
IsNoRotation rz = ⊥
IsNoRotation _ = Unit

-- What can be printed: `cz` circuits, `cnot` circuits without rotations, and circuits without gates.
pub data IsPrintable (target : String) (ops : List GateOp) : Type 0 where
  for_cz : target ≡ "cz" → IsPrintable target ops
  for_cnot : target ≡ "cnot" → All (λ op. IsNoRotation op.gate) ops → IsPrintable target ops
  without_gates : ops ≡ [] → IsPrintable target ops

bound :
    {A B : Type 0} (r : Result A) (k : A → B) {a : A}
    → r ≡ ok a
    → (b : B) × ((r >>= λ a. ok (k a)) ≡ ok b)
bound (ok a) k e = (k a, refl)
bound (err x) k e = absurd (refused e)

illegal : {A : Type 0} (s t : String) → str_eq s t ≡ false → s ≡ t → A
illegal s t n e = absurd (clash (sym n ∙ (eq_iff s t).1 e))
  where
    clash : false ≡ true → ⊥
    clash e = cc

module _ (f : Floats) (qubits : List ℕ) where
  cz_prints :
      (g : NativeGate) (ps : List Float)
      → LegalFor "cz" g
      → (line : List ℕ) × (ir_gate_to_openqasm_cz f g ps qubits ≡ ok line)
  unfolding ir_gate_to_openqasm_cz
  cz_prints rx ps l = (_, refl)
  cz_prints ry ps l = (_, refl)
  cz_prints rz ps l = (_, refl)
  cz_prints cz ps l = (_, refl)
  cz_prints id ps l = (_, refl)
  cz_prints iswap ps l = illegal "cz" "iswap" refl l
  cz_prints cp ps l = illegal "cz" "pcz" refl l
  cz_prints x90 ps l = illegal "cz" "cnot" refl l
  cz_prints y_minus_90 ps l = illegal "cz" "cnot" refl l
  cz_prints virtual_z ps l = illegal "cz" "cnot" refl l
  cz_prints cnot ps l = illegal "cz" "cnot" refl l

  cnot_prints :
      (g : NativeGate) (qs : List ℤ) (ps : List Float)
      → LegalFor "cnot" g
      → IsWellShaped (record { gate = g; qubits = qs; params = ps })
      → IsNoRotation g
      → (line : List ℕ) × (ir_gate_to_openqasm_cnot f g ps qubits ≡ ok line)
  unfolding ir_gate_to_openqasm_cnot
  cnot_prints rx qs ps l s n = absurd n
  cnot_prints ry qs ps l s n = absurd n
  cnot_prints rz qs ps l s n = absurd n
  cnot_prints cz qs ps l s n = illegal "cnot" "cz" refl l
  cnot_prints iswap qs ps l s n = illegal "cnot" "iswap" refl l
  cnot_prints cp qs ps l s n = illegal "cnot" "pcz" refl l
  cnot_prints id qs ps l s n = (_, refl)
  cnot_prints x90 qs ps l s n = (_, refl)
  cnot_prints y_minus_90 qs ps l s n = (_, refl)
  cnot_prints virtual_z qs [] l s n = absurd (omega arith)
  cnot_prints virtual_z qs (x ∷ ps) l s n = (_, refl)
  cnot_prints cnot qs ps l s n = (_, refl)

  cnot-IsNoRotation :
      (g : NativeGate) (ps : List Float) {line : List ℕ}
      → ir_gate_to_openqasm_cnot f g ps qubits ≡ ok line
      → IsNoRotation g
  unfolding ir_gate_to_openqasm_cnot
  cnot-IsNoRotation rx ps h = refused h
  cnot-IsNoRotation ry ps h = refused h
  cnot-IsNoRotation rz ps h = refused h
  cnot-IsNoRotation _ ps h = tt

module _ (f : Floats) where
  Prints-gate_lines :
      (target : String) (ops : List GateOp)
      → All (Prints f target) ops
      → (ls : List (List ℕ)) × (gate_lines f target ops ≡ ok ls)
  unfolding gate_lines
  Prints-gate_lines target [] h = ([], refl)
  Prints-gate_lines target (op ∷ ops) ((line, p), h) =
      let (ls, e) = Prints-gate_lines target ops h in (line ∷ ls, rw p (rw e refl))

  gate_lines-Prints :
      (target : String) (ops : List GateOp) {ls : List (List ℕ)}
      → gate_lines f target ops ≡ ok ls
      → All (Prints f target) ops
  unfolding gate_lines
  gate_lines-Prints target [] h = tt
  gate_lines-Prints target (op ∷ ops) h =
      let (line, g, p) = bind_ok (ir_gate_to_openqasm f op target) _ h in
      let (ls, _, e) = bind_ok (gate_lines f target ops) _ g in
      ((line, p), gate_lines-Prints target ops e)

  all_cz : (n : ℤ) (ops : List GateOp) → All (IsPlaced "cz" n) ops → All (Prints f "cz") ops
  unfolding ir_gate_to_openqasm
  all_cz n [] h = tt
  all_cz n (op ∷ ops) (p, h) = (cz_prints f _ op.gate op.params p.legal, all_cz n ops h)

  all_cnot :
      (n : ℤ) (ops : List GateOp)
      → All (IsPlaced "cnot" n) ops
      → All IsWellShaped ops
      → All (λ op. IsNoRotation op.gate) ops
      → All (Prints f "cnot") ops
  unfolding ir_gate_to_openqasm
  all_cnot n [] h s r = tt
  all_cnot n (op ∷ ops) (p, h) (s, ss) (r, rs) =
      (cnot_prints f _ op.gate op.qubits op.params p.legal s r, all_cnot n ops h ss rs)

  no_rotations :
      (ops : List GateOp) → All (Prints f "cnot") ops → All (λ op. IsNoRotation op.gate) ops
  unfolding ir_gate_to_openqasm
  no_rotations [] h = tt
  no_rotations (op ∷ ops) ((line, p), h) =
      (cnot-IsNoRotation f _ op.gate op.params p, no_rotations ops h)

  printable :
      (target : String) (ops : List GateOp) → All (Prints f target) ops → IsPrintable target ops
  unfolding ir_gate_to_openqasm
  printable target [] h = without_gates refl
  printable target (op ∷ ops) h = elim (Bool-cases (str_eq target "cz")) [
    | inl e ↦ for_cz ((eq_iff target "cz").0 e)
    | inr n ↦ elim (Bool-cases (str_eq target "cnot")) [
      | inl e ↦
          let at = (eq_iff target "cnot").0 e in
          for_cnot at (no_rotations (op ∷ ops) (subst (λ t. All (Prints f t) (op ∷ ops)) at h))
      | inr m ↦ absurd (refused (rw n at (rw m at h.0.1)))
    ]
  ]

  all_printed :
      (target : String) (n : ℤ) (ops : List GateOp)
      → All (IsPlaced target n) ops
      → All IsWellShaped ops
      → IsPrintable target ops
      → All (Prints f target) ops
  all_printed target n ops p s (for_cz e) =
      subst (λ t. All (Prints f t) ops) (sym e)
        (all_cz n ops (subst (λ t. All (IsPlaced t n) ops) e p))
  all_printed target n ops p s (for_cnot e r) =
      subst (λ t. All (Prints f t) ops) (sym e)
        (all_cnot n ops (subst (λ t. All (IsPlaced t n) ops) e p) s r)
  all_printed target n ops p s (without_gates e) = subst (λ os. All (Prints f target) os) (sym e) tt

  framed :
      (ir : NativeGateIr) (ls : List (List ℕ))
      → gate_lines f ir.target ir.gates ≡ ok ls
      → (text : List ℕ) × (ir_to_openqasm f ir ≡ ok text)
  unfolding ir_to_openqasm
  framed ir ls e = bound (gate_lines f ir.target ir.gates) _ e

-- A valid circuit is printed exactly if its target is `cz`, or `cnot` with no rotation among its gates,
-- or it has no gates.
pub ir_to_openqasm_iff :
    (f : Floats) (ir : NativeGateIr)
    → validate ir ≡ valid ir
    → ((text : List ℕ) × (ir_to_openqasm f ir ≡ ok text)) ↔ IsPrintable ir.target ir.gates
unfolding ir_to_openqasm
ir_to_openqasm_iff f ir v =
    let w = (validate_iff ir).0 v in
    (
      λ (text, h).
          let (ls, _, e) = bind_ok (gate_lines f ir.target ir.gates) _ h in
          printable f ir.target ir.gates (gate_lines-Prints f ir.target ir.gates e),
      λ p.
          let (ls, e) =
            Prints-gate_lines f ir.target ir.gates
              (all_printed f ir.target ir.num_qubits ir.gates w.placed w.shapes p) in
          framed f ir ls e,
    )
