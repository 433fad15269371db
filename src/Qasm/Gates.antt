-- ===== src/Qasm/Gates.antt =====
-- The gate tables of server/qasm.py, and what a conversion raises. Printing and reading a float
-- (`f"{x:.15g}"`, `float(text)`) and `math.isclose` are Python's and come as a `Floats`.
use coda_node.Prelude.{
  ℕ, String, Bool, true, false, ◌&&◌, Option, none, some, List, [], ◌∷◌, ◌++◌, ◌==◌, str_eq,
  if◌then◌else◌, codes, ℤ, Float, float_zero, contains,
}
use coda_node.Ir.{
  NativeGate, rx, ry, rz, cz, id, x90, y_minus_90, virtual_z, cnot, value, GateOp, IrError,
  validate_gate_shape,
}

pub record Floats : Type 0 where
  -- `_format_float`
  pub format : Float → List ℕ
  -- `float(text)`; `none` is the `ValueError`
  pub parse : List ℕ → Option Float
  -- `math.isclose(x, -_HALF_PI, rel_tol=1e-12, abs_tol=1e-12)`
  pub is_close : Float → Bool
  -- `-_HALF_PI`
  pub minus_half_pi : Float

pub data QasmError : Type 0 where
  -- QASMConversionError
  multiple_registers no_register : QasmError
  unsupported_line : List ℕ → QasmError
  unsupported_target : String → QasmError
  not_supported : List ℕ → String → QasmError
  not_representable : Float → QasmError
  no_mapping : String → String → QasmError
  needs_parameter : QasmError
  invalid_ir : List IrError → QasmError
  -- pydantic's `ValidationError` of one gate, `ValueError` and `IndexError`
  invalid_gate : IrError → QasmError
  value_error index_error : QasmError

pub data Result (A : Type 0) : Type 0 where
  ok : A → Result A
  err : QasmError → Result A

infixl 5 ◌>>=◌
abbrev pub ◌>>=◌ : {A B : Type 0} → Result A → (A → Result B) → Result B
ok a >>= f = f a
err e >>= f = err e

abbrev pub same : List ℕ → List ℕ → Bool
same [] [] = true
same (a ∷ s) (b ∷ t) = a == b && same s t
same _ _ = false

-- A table from OpenQASM names to gates, and whether the gate keeps its parameters.
abbrev pub Table : Type 0
Table = List (String × NativeGate × Bool)

-- `_map`
abbrev pub cz_table : Table
cz_table =
    ("rx", rx, true)
    ∷ ("ry", ry, true)
    ∷ ("rz", rz, true)
    ∷ ("cz", cz, false)
    ∷ ("id", id, false)
    ∷ []

-- `_simple`
abbrev pub cnot_table : Table
cnot_table =
    ("sx", x90, false) ∷ ("rz", virtual_z, true) ∷ ("cx", cnot, false) ∷ ("id", id, false) ∷ []

abbrev pub find : List ℕ → Table → Option (NativeGate × Bool)
find name [] = none
find name ((key, gate, keeps) ∷ t) =
    if same name (codes key) then some (gate, keeps) else find name t

abbrev accepted : GateOp → Option IrError → Result GateOp
accepted op none = ok op
accepted op (some e) = err (invalid_gate e)

-- `GateOp(…)`, which validates.
unfoldable pub gate_op : NativeGate → List ℤ → List Float → Result GateOp
gate_op gate qubits params =
    let op : GateOp = record { gate = gate; qubits = qubits; params = params } in
    accepted op (validate_gate_shape op)

-- The duration that OpenQASM lacks.
abbrev from_entry : NativeGate × Bool → List Float → List ℤ → Result GateOp
from_entry (id, keeps) params qubits = gate_op id qubits (float_zero ∷ [])
from_entry (gate, keeps) params qubits = gate_op gate qubits (if keeps then params else [])

-- _openqasm_gate_to_ir_cz
unfoldable pub openqasm_gate_to_ir_cz : List ℕ → List Float → List ℤ → Result GateOp
openqasm_gate_to_ir_cz name params qubits = elim (find name cz_table) [
  | some entry ↦ from_entry entry params qubits
  | none ↦ err (not_supported name "cz")
]

-- `", ".join(…)`
abbrev pub comma_joined : List (List ℕ) → List ℕ
comma_joined [] = []
comma_joined (t ∷ []) = t
comma_joined (t ∷ u ∷ ts) = t ++ (codes ", " ++ comma_joined (u ∷ ts))

-- `f"{name}({params}) {qubits};"` and `f"{name} {qubits};"`
abbrev pub call_line : String → List ℕ → List ℕ → List ℕ
call_line name params qubits =
    codes name ++ (b'(' ∷ (params ++ (b')' ∷ (b' ' ∷ (qubits ++ b';' ∷ [])))))

abbrev pub plain_line : String → List ℕ → List ℕ
plain_line name qubits = codes name ++ (b' ' ∷ (qubits ++ b';' ∷ []))

module _ (f : Floats) where
  -- The `ry` of the `cnot` gate set.
  abbrev ry_to_ir : List ℕ → List Float → List ℤ → Result GateOp
  ry_to_ir name (angle ∷ []) qubits =
      if same name (codes "ry")
      then (if f.is_close angle
          then gate_op y_minus_90 qubits []
          else err (not_representable angle))
      else err (not_supported name "cnot")
  ry_to_ir name _ qubits = err (not_supported name "cnot")

  -- _openqasm_gate_to_ir_cnot
  unfoldable pub openqasm_gate_to_ir_cnot : List ℕ → List Float → List ℤ → Result GateOp
  openqasm_gate_to_ir_cnot name params qubits = elim (find name cnot_table) [
    | some entry ↦ from_entry entry params qubits
    | none ↦ ry_to_ir name params qubits
  ]

  -- _openqasm_gate_to_ir
  unfoldable pub openqasm_gate_to_ir : List ℕ → List Float → List ℤ → String → Result GateOp
  openqasm_gate_to_ir name params qubits target =
      if str_eq target "cz"
      then openqasm_gate_to_ir_cz name params qubits
      else if str_eq target "cnot"
      then openqasm_gate_to_ir_cnot name params qubits
      else err (unsupported_target target)

  abbrev pub formatted : List Float → List (List ℕ)
  formatted [] = []
  formatted (x ∷ xs) = f.format x ∷ formatted xs

  -- _ir_gate_to_openqasm_cz; `virtual_z` is no gate of this target, and is printed.
  unfoldable pub ir_gate_to_openqasm_cz : NativeGate → List Float → List ℕ → Result (List ℕ)
  ir_gate_to_openqasm_cz virtual_z [] qubits = err needs_parameter
  ir_gate_to_openqasm_cz virtual_z (x ∷ xs) qubits = ok (call_line "rz" (f.format x) qubits)
  ir_gate_to_openqasm_cz gate params qubits =
      if contains (value gate) ("rx" ∷ "ry" ∷ "rz" ∷ [])
      then ok (call_line (value gate) (comma_joined (formatted params)) qubits)
      else if contains (value gate) ("cz" ∷ "id" ∷ [])
      then ok (plain_line (value gate) qubits)
      else err (no_mapping (value gate) "cz")

  -- _ir_gate_to_openqasm_cnot
  unfoldable pub ir_gate_to_openqasm_cnot : NativeGate → List Float → List ℕ → Result (List ℕ)
  ir_gate_to_openqasm_cnot x90 params qubits = ok (plain_line "sx" qubits)
  ir_gate_to_openqasm_cnot y_minus_90 params qubits =
      ok (call_line "ry" (f.format f.minus_half_pi) qubits)
  ir_gate_to_openqasm_cnot virtual_z [] qubits = err index_error
  ir_gate_to_openqasm_cnot virtual_z (x ∷ xs) qubits = ok (call_line "rz" (f.format x) qubits)
  ir_gate_to_openqasm_cnot cnot params qubits = ok (plain_line "cx" qubits)
  ir_gate_to_openqasm_cnot id params qubits = ok (plain_line "id" qubits)
  ir_gate_to_openqasm_cnot gate params qubits = err (no_mapping (value gate) "cnot")
