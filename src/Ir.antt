-- ===== src/Ir.antt =====
-- The native-gate circuits that jobs carry, and their validators (server/ir.py). Decoding JSON into
-- these types is pydantic's; the checks that the model declares are written out, in the order in
-- which pydantic runs them: the fields first, all of their faults reported, then the whole circuit.
pub mod Spec
pub mod Validation
use coda_node.Prelude.{
  ℕ, suc, ◌+◌, String, Bool, true, false, not, ◌||◌, Option, none, some, List, [], ◌∷◌, ◌++◌, ltb,
  leb, ◌==◌, str_eq, if◌then◌else◌, length, lookup, contains, ℤ, pos, ltb_int, leb_int, Float,
}

pub data NativeGate : Type 0 where
  rx ry rz cz iswap cp id x90 y_minus_90 virtual_z cnot : NativeGate

-- `gate.value`
abbrev pub value : NativeGate → String
value rx = "rx"
value ry = "ry"
value rz = "rz"
value cz = "cz"
value iswap = "iswap"
value cp = "cp"
value id = "id"
value x90 = "x90"
value y_minus_90 = "y_minus_90"
value virtual_z = "virtual_z"
value cnot = "cnot"

pub record GateSpec : Type 0 where
  pub qubits : ℕ
  pub params : ℕ

abbrev spec : ℕ → ℕ → GateSpec
spec q p = record { qubits = q; params = p }

-- GATE_SPECS
abbrev pub gate_specs : List (String × GateSpec)
gate_specs =
    ("rx", spec 1 1)
    ∷ ("ry", spec 1 1)
    ∷ ("rz", spec 1 1)
    ∷ ("cz", spec 2 0)
    ∷ ("iswap", spec 2 0)
    ∷ ("cp", spec 2 1)
    ∷ ("id", spec 1 1)
    ∷ ("x90", spec 1 0)
    ∷ ("y_minus_90", spec 1 0)
    ∷ ("virtual_z", spec 1 1)
    ∷ ("cnot", spec 2 0)
    ∷ []

-- LEGAL_GATES
abbrev pub legal_gates : List (String × List String)
legal_gates =
    ("cz", "rx" ∷ "ry" ∷ "rz" ∷ "cz" ∷ "id" ∷ [])
    ∷ ("iswap", "rx" ∷ "ry" ∷ "rz" ∷ "iswap" ∷ "id" ∷ [])
    ∷ ("pcz", "rx" ∷ "ry" ∷ "rz" ∷ "cp" ∷ "id" ∷ [])
    ∷ ("cnot", "rx" ∷ "ry" ∷ "rz" ∷ "x90" ∷ "y_minus_90" ∷ "virtual_z" ∷ "cnot" ∷ "id" ∷ [])
    ∷ []

pub record GateOp : Type 0 where
  pub gate : NativeGate
  pub qubits : List ℤ
  pub params : List Float

pub record IrMetadata : Type 0 where
  pub source_hash : String
  pub compiled_at : String
  pub compiler_version : String
  pub optimization_level : ℤ

pub record NativeGateIr : Type 0 where
  pub version : String
  pub target : String
  pub num_qubits : ℤ
  pub gates : List GateOp
  pub measurements : List ℤ
  pub metadata : IrMetadata

-- The faults that the validators report, with what their messages name.
pub data IrError : Type 0 where
  bad_version : String → IrError
  unknown_target : String → IrError
  bad_num_qubits : ℤ → IrError
  wrong_qubits : String → ℕ → ℕ → IrError
  wrong_params : String → ℕ → ℕ → IrError
  bad_optimization_level : ℤ → IrError
  illegal_gate : String → String → ℕ → IrError
  qubit_out_of_range : ℤ → ℤ → ℕ → IrError
  measurement_out_of_range : ℤ → ℤ → IrError

-- GateOp.validate_gate_shape
unfoldable pub validate_gate_shape : GateOp → Option IrError
validate_gate_shape op = elim (lookup (value op.gate) gate_specs) [
  | none ↦ none
  | some s ↦
      if not (length op.qubits == s.qubits)
      then some (wrong_qubits (value op.gate) s.qubits (length op.qubits))
      else if not (length op.params == s.params)
      then some (wrong_params (value op.gate) s.params (length op.params))
      else none
]

-- NativeGateIR.validate_target
unfoldable pub validate_target : String → Option IrError
validate_target target = elim (lookup target legal_gates) [
  | none ↦ some (unknown_target target)
  | some _ ↦ none
]

-- `Field(ge=lo, le=hi)`
abbrev within : ℤ → ℤ → ℤ → Bool
within lo hi n = not (ltb_int n lo || ltb_int hi n)

-- `qubit < 0 or qubit >= self.num_qubits`
abbrev pub out_of_range : ℤ → ℤ → Bool
out_of_range n q = ltb_int q (pos 0) || leb_int n q

unfoldable pub check_qubits : ℤ → ℕ → List ℤ → Option IrError
check_qubits n index [] = none
check_qubits n index (q ∷ qs) =
    let rest = check_qubits n index qs in
    if out_of_range n q then some (qubit_out_of_range q n index) else rest

-- The first loop of `validate_consistency`.
unfoldable pub check_gates : List String → String → ℤ → ℕ → List GateOp → Option IrError
unfolding check_qubits
check_gates legal target n index [] = none
check_gates legal target n index (op ∷ ops) =
    let rest = check_gates legal target n (index + 1) ops in
    if not (contains (value op.gate) legal)
    then some (illegal_gate (value op.gate) target index)
    else elim (check_qubits n index op.qubits) [ some e ↦ some e | none ↦ rest ]

-- The second loop.
unfoldable pub check_measurements : ℤ → List ℤ → Option IrError
check_measurements n [] = none
check_measurements n (q ∷ qs) =
    let rest = check_measurements n qs in
    if out_of_range n q then some (measurement_out_of_range q n) else rest

legal_of : Option (List String) → List String
legal_of none = []
legal_of (some legal) = legal

-- NativeGateIR.validate_consistency. It runs behind `validate_target`, so the target is a key.
unfoldable pub validate_consistency : NativeGateIr → Option IrError
unfolding check_gates check_measurements legal_of
validate_consistency ir =
    elim (check_gates (legal_of (lookup ir.target legal_gates)) ir.target ir.num_qubits 0
      ir.gates) [ some e ↦ some e | none ↦ check_measurements ir.num_qubits ir.measurements ]

abbrev report : Option IrError → List IrError → List IrError
report none es = es
report (some e) es = e ∷ es

abbrev shape_errors : List GateOp → List IrError → List IrError
shape_errors [] es = es
shape_errors (op ∷ ops) es = report (validate_gate_shape op) (shape_errors ops es)

abbrev unless : Bool → IrError → Option IrError
unless true e = none
unless false e = some e

-- The faults of the fields, in the order of the fields.
unfoldable pub field_errors : NativeGateIr → List IrError
field_errors ir = report (unless (str_eq ir.version "1.0") (bad_version ir.version)) (
    report (validate_target ir.target) (
      report (unless (within (pos 1) (pos 50) ir.num_qubits) (bad_num_qubits ir.num_qubits)) (
        shape_errors ir.gates (
          report
            (unless (within (pos 0) (pos 3) ir.metadata.optimization_level)
              (bad_optimization_level ir.metadata.optimization_level))
            []))))

pub data Validated : Type 0 where
  valid : NativeGateIr → Validated
  invalid : List IrError → Validated

-- What building a `NativeGateIR` does: a circuit, or a `ValidationError` with the faults.
unfoldable pub validate : NativeGateIr → Validated
validate ir = elim (field_errors ir) [
  | e ∷ es ↦ invalid (e ∷ es)
  | [] ↦ elim (validate_consistency ir) [ some e ↦ invalid (e ∷ []) | none ↦ valid ir ]
]
