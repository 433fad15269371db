-- ===== src/Qasm/Printer.antt =====
-- From a circuit to OpenQASM text (`ir_to_openqasm` of server/qasm.py).
use coda_node.Prelude.{
  ℕ, ◌+◌, String, List, [], ◌∷◌, ◌++◌, str_eq, if◌then◌else◌, codes, length, ℤ, numeral,
  int_numeral,
}
use coda_node.Ir.{GateOp, NativeGateIr}
use coda_node.Qasm.Gates.{
  Floats, Result, ok, err, unsupported_target, ◌>>=◌, comma_joined, ir_gate_to_openqasm_cz,
  ir_gate_to_openqasm_cnot,
}

-- `f"q[{q}]"`
abbrev pub qubit_text : ℤ → List ℕ
qubit_text q = codes "q[" ++ (int_numeral q ++ b']' ∷ [])

abbrev pub qubit_texts : List ℤ → List (List ℕ)
qubit_texts [] = []
qubit_texts (q ∷ qs) = qubit_text q ∷ qubit_texts qs

-- `f"c[{i}] = measure q[{qubit}];"` for each measurement.
abbrev pub measure_lines : ℕ → List ℤ → List (List ℕ)
measure_lines i [] = []
measure_lines i (q ∷ qs) =
    (codes "c[" ++ (numeral i ++ (codes "] = measure q[" ++ (int_numeral q ++ codes "];"))))
    ∷ measure_lines (i + 1) qs

-- `"\n".join(lines)`
abbrev pub joined : List (List ℕ) → List ℕ
joined [] = []
joined (l ∷ []) = l
joined (l ∷ m ∷ ls) = l ++ (10 ∷ joined (m ∷ ls))

abbrev pub qubit_line : ℤ → List ℕ
qubit_line n = codes "qubit[" ++ (int_numeral n ++ codes "] q;")

abbrev pub bit_lines : List ℤ → List (List ℕ)
bit_lines [] = []
bit_lines (q ∷ qs) = (codes "bit[" ++ (numeral (length (q ∷ qs)) ++ codes "] c;")) ∷ []

module _ (f : Floats) where
  -- _ir_gate_to_openqasm
  unfoldable pub ir_gate_to_openqasm : GateOp → String → Result (List ℕ)
  ir_gate_to_openqasm op target =
      let qubits = comma_joined (qubit_texts op.qubits) in
      if str_eq target "cz"
      then ir_gate_to_openqasm_cz f op.gate op.params qubits
      else if str_eq target "cnot"
      then ir_gate_to_openqasm_cnot f op.gate op.params qubits
      else err (unsupported_target target)

  unfoldable pub gate_lines : String → List GateOp → Result (List (List ℕ))
  gate_lines target [] = ok []
  gate_lines target (op ∷ ops) = do
    line ← ir_gate_to_openqasm op target
    lines ← gate_lines target ops
    ok (line ∷ lines)

  -- ir_to_openqasm
  unfoldable pub ir_to_openqasm : NativeGateIr → Result (List ℕ)
  ir_to_openqasm ir = do
    gates ← gate_lines ir.target ir.gates
    ok (
        joined (
          codes "OPENQASM 3.0;"
          ∷ codes "include \"stdgates.inc\";"
          ∷ qubit_line ir.num_qubits
          ∷ (bit_lines ir.measurements ++ (gates ++ measure_lines 0 ir.measurements)))
        ++ 10 ∷ [])
