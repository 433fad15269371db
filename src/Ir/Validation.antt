-- ===== src/Ir/Validation.antt =====
-- The validators of server/ir.py accept exactly the well-formed circuits.
use coda_node.Prelude.{
  ℕ, ◌+◌, ◌≡◌, refl, sym, inl, inr, ◌↔◌, String, Bool, true, false, Option, none, some, List, [],
  ◌∷◌, All, arith, if◌then◌else◌, contains, lookup, str_eq, eq_iff, Bool-cases, ℤ, pos, negsuc,
  Float,
}
use coda_node.Ir.{
  NativeGate, rx, value, GateOp, NativeGateIr, IrError, bad_version, bad_num_qubits,
  bad_optimization_level, legal_gates, validate_gate_shape, validate_target, out_of_range,
  check_qubits, check_gates, check_measurements, legal_of, validate_consistency, report,
  shape_errors, within, unless, field_errors, valid, validate,
}
use coda_node.Ir.Spec.{
  Between, LegalFor, Target, is_cz, is_iswap, is_pcz, is_cnot, IsQubit, IsWellShaped, IsPlaced,
  IsWellFormed,
}

shape_at :
    (g : NativeGate) (qs : List ℤ) (ps : List Float)
    → let op : GateOp = record { gate = g; qubits = qs; params = ps } in
      (validate_gate_shape op ≡ none) ↔ IsWellShaped op
unfolding validate_gate_shape
shape_at rx qs ps = ground arith
shape_at _ qs ps = ground arith

pub validate_gate_shape_iff : (op : GateOp) → (validate_gate_shape op ≡ none) ↔ IsWellShaped op
validate_gate_shape_iff op = shape_at op.gate op.qubits op.params

out_of_range_iff : (n q : ℤ) → (out_of_range n q ≡ false) ↔ IsQubit n q
out_of_range_iff (pos n) (pos q) = ground arith
out_of_range_iff (negsuc n) (pos q) = ground arith
out_of_range_iff (pos n) (negsuc q) = ground arith
out_of_range_iff (negsuc n) (negsuc q) = ground arith

-- A guard in front of a check: both must pass.
guard_iff :
    {P Q : Type 0} (b : Bool) (e : IrError) (rest : Option IrError)
    → (b ≡ false) ↔ P
    → (rest ≡ none) ↔ Q
    → ((if b then some e else rest) ≡ none) ↔ (P × Q)
guard_iff true e rest p q = (λ h. cc, λ h. cc (p.1 h.0))
guard_iff false e rest p q = (λ h. (p.0 refl, q.0 h), λ h. q.1 h.1)

check_qubits_iff :
    (n : ℤ) (index : ℕ) (qs : List ℤ) → (check_qubits n index qs ≡ none) ↔ All (IsQubit n) qs
unfolding check_qubits
check_qubits_iff n index [] = (λ _. tt, λ _. refl)
check_qubits_iff n index (q ∷ qs) =
    guard_iff _ _ _ (out_of_range_iff n q) (check_qubits_iff n index qs)

check_measurements_iff :
    (n : ℤ) (qs : List ℤ) → (check_measurements n qs ≡ none) ↔ All (IsQubit n) qs
unfolding check_measurements
check_measurements_iff n [] = (λ _. tt, λ _. refl)
check_measurements_iff n (q ∷ qs) =
    guard_iff _ _ _ (out_of_range_iff n q) (check_measurements_iff n qs)

-- The targets with a gate set are the four named ones.
validate_target_iff : (target : String) → (validate_target target ≡ none) ↔ Target target
unfolding validate_target
validate_target_iff target = (
  λ h. elim (Bool-cases (str_eq "cz" target)) [
    | inl e ↦ is_cz (sym ((eq_iff "cz" target).0 e))
    | inr n1 ↦ elim (Bool-cases (str_eq "iswap" target)) [
      | inl e ↦ is_iswap (sym ((eq_iff "iswap" target).0 e))
      | inr n2 ↦ elim (Bool-cases (str_eq "pcz" target)) [
        | inl e ↦ is_pcz (sym ((eq_iff "pcz" target).0 e))
        | inr n3 ↦ is_cnot (ground (arith, eq_iff "cnot" target))
      ]
    ]
  ],
  λ t. elim t [ is_cz e ↦ rw e | is_iswap e ↦ rw e | is_pcz e ↦ rw e | is_cnot e ↦ rw e ],
)

legal_cz :
    (g : NativeGate)
    → (contains (value g) (legal_of (lookup "cz" legal_gates)) ≡ true) ↔ LegalFor "cz" g
unfolding legal_of
legal_cz rx = ground arith
legal_cz _ = ground (arith, eq_iff "cz" "iswap", eq_iff "cz" "pcz", eq_iff "cz" "cnot")

legal_iswap :
    (g : NativeGate)
    → (contains (value g) (legal_of (lookup "iswap" legal_gates)) ≡ true) ↔ LegalFor "iswap" g
unfolding legal_of
legal_iswap rx = ground arith
legal_iswap _ = ground (arith, eq_iff "iswap" "cz", eq_iff "iswap" "pcz", eq_iff "iswap" "cnot")

legal_pcz :
    (g : NativeGate)
    → (contains (value g) (legal_of (lookup "pcz" legal_gates)) ≡ true) ↔ LegalFor "pcz" g
unfolding legal_of
legal_pcz rx = ground arith
legal_pcz _ = ground (arith, eq_iff "pcz" "cz", eq_iff "pcz" "iswap", eq_iff "pcz" "cnot")

legal_cnot :
    (g : NativeGate)
    → (contains (value g) (legal_of (lookup "cnot" legal_gates)) ≡ true) ↔ LegalFor "cnot" g
unfolding legal_of
legal_cnot rx = ground arith
legal_cnot _ = ground (arith, eq_iff "cnot" "cz", eq_iff "cnot" "iswap", eq_iff "cnot" "pcz")

-- For a known target the table lists a gate exactly if the hardware runs it.
legal_gates_iff :
    (target : String) (g : NativeGate)
    → Target target
    → (contains (value g) (legal_of (lookup target legal_gates)) ≡ true) ↔ LegalFor target g
legal_gates_iff target g (is_cz e) = rw e (legal_cz g)
legal_gates_iff target g (is_iswap e) = rw e (legal_iswap g)
legal_gates_iff target g (is_pcz e) = rw e (legal_pcz g)
legal_gates_iff target g (is_cnot e) = rw e (legal_cnot g)

module _ (legal : List String) (target : String) (n : ℤ) where
  check_gates_iff :
      ((g : NativeGate) → (contains (value g) legal ≡ true) ↔ LegalFor target g)
      → (index : ℕ) (ops : List GateOp)
      → (check_gates legal target n index ops ≡ none) ↔ All (IsPlaced target n) ops
  unfolding check_gates
  check_gates_iff known index [] = (λ _. tt, λ _. refl)
  check_gates_iff known index (op ∷ ops) = ground (
    arith,
    known op.gate,
    check_qubits_iff n index op.qubits,
    check_gates_iff known (index + 1) ops,
  )

validate_consistency_iff :
    (ir : NativeGateIr)
    → Target ir.target
    → (validate_consistency ir ≡ none) ↔ (
        All (IsPlaced ir.target ir.num_qubits) ir.gates
        × All (IsQubit ir.num_qubits) ir.measurements)
unfolding validate_consistency
validate_consistency_iff ir t = ground (
  arith,
  check_gates_iff _ ir.target ir.num_qubits (λ g. legal_gates_iff ir.target g t) 0 ir.gates,
  check_measurements_iff ir.num_qubits ir.measurements,
)

report_iff :
    (o : Option IrError) (es : List IrError) → (report o es ≡ []) ↔ ((o ≡ none) × (es ≡ []))
report_iff none es = ground arith
report_iff (some e) es = ground arith

shape_errors_iff :
    (ops : List GateOp) (es : List IrError)
    → (shape_errors ops es ≡ []) ↔ (All IsWellShaped ops × (es ≡ []))
shape_errors_iff [] es = (λ h. (tt, h), λ h. h.1)
shape_errors_iff (op ∷ ops) es = ground (
  arith,
  report_iff (validate_gate_shape op) (shape_errors ops es),
  validate_gate_shape_iff op,
  shape_errors_iff ops es,
)

within_iff : (lo hi : ℕ) (n : ℤ) → (within (pos lo) (pos hi) n ≡ true) ↔ Between lo hi n
within_iff lo hi (pos n) = ground arith
within_iff lo hi (negsuc n) = ground arith

unless_iff : (b : Bool) (e : IrError) → (unless b e ≡ none) ↔ (b ≡ true)
unless_iff true e = ground arith
unless_iff false e = ground arith

-- The last field with a fault of its own.
abbrev level_errors : NativeGateIr → List IrError
level_errors ir =
    report
      (unless (within (pos 0) (pos 3) ir.metadata.optimization_level)
        (bad_optimization_level ir.metadata.optimization_level))
      []

level_errors_iff :
    (ir : NativeGateIr) → (level_errors ir ≡ []) ↔ Between 0 3 ir.metadata.optimization_level
level_errors_iff ir = ground (
  arith,
  report_iff
      (unless (within (pos 0) (pos 3) ir.metadata.optimization_level)
        (bad_optimization_level ir.metadata.optimization_level))
      [],
  unless_iff (within (pos 0) (pos 3) ir.metadata.optimization_level)
      (bad_optimization_level ir.metadata.optimization_level),
  within_iff 0 3 ir.metadata.optimization_level,
)

field_errors_iff :
    (ir : NativeGateIr)
    → (field_errors ir ≡ []) ↔ (
        (ir.version ≡ "1.0")
        × Target ir.target
        × Between 1 50 ir.num_qubits
        × All IsWellShaped ir.gates
        × Between 0 3 ir.metadata.optimization_level)
unfolding field_errors
field_errors_iff ir = ground (
  arith,
  eq_iff ir.version "1.0",
  report_iff (unless (str_eq ir.version "1.0") (bad_version ir.version)) (
      report (validate_target ir.target) (
        report (unless (within (pos 1) (pos 50) ir.num_qubits) (bad_num_qubits ir.num_qubits))
          (shape_errors ir.gates (level_errors ir)))),
  unless_iff (str_eq ir.version "1.0") (bad_version ir.version),
  report_iff (validate_target ir.target) (
      report (unless (within (pos 1) (pos 50) ir.num_qubits) (bad_num_qubits ir.num_qubits))
        (shape_errors ir.gates (level_errors ir))),
  validate_target_iff ir.target,
  report_iff (unless (within (pos 1) (pos 50) ir.num_qubits) (bad_num_qubits ir.num_qubits))
      (shape_errors ir.gates (level_errors ir)),
  unless_iff (within (pos 1) (pos 50) ir.num_qubits) (bad_num_qubits ir.num_qubits),
  within_iff 1 50 ir.num_qubits,
  shape_errors_iff ir.gates (level_errors ir),
  level_errors_iff ir,
)

validate_stages :
    (ir : NativeGateIr)
    → (validate ir ≡ valid ir) ↔ ((field_errors ir ≡ []) × (validate_consistency ir ≡ none))
unfolding validate
validate_stages ir = ground arith

-- Validation returns its circuit exactly if the circuit is well formed: version 1.0, a known target,
-- 1 to 50 qubits, an optimisation level of 0 to 3, each gate with the operands and angles that it
-- takes and legal for the target, and every gate operand and measured qubit below the qubit count.
pub validate_iff : (ir : NativeGateIr) → (validate ir ≡ valid ir) ↔ IsWellFormed ir
validate_iff ir = (
  λ h.
      let (fields, whole) = (validate_stages ir).0 h in
      let (v, t, n, s, l) = (field_errors_iff ir).0 fields in
      let (p, m) = (validate_consistency_iff ir t).0 whole in
      record {
        version = v;
        target = t;
        num_qubits = n;
        level = l;
        shapes = s;
        placed = p;
        measured = m;
      },
  λ w. (validate_stages ir).1 (
    (field_errors_iff ir).1 (w.version, w.target, w.num_qubits, w.shapes, w.level),
    (validate_consistency_iff ir w.target).1 (w.placed, w.measured),
  ),
)
