-- ===== src/Qasm/Parser.antt =====
-- From OpenQASM text to a circuit (`openqasm_to_ir` of server/qasm.py).
use coda_node.Prelude.{
  ℕ, String, Bool, true, false, ◌||◌, Option, none, some, List, [], ◌∷◌, ◌++◌, if◌then◌else◌, codes,
  is_empty, length, starts_with, split, splitlines, strip, parse_int, ℤ, pos, Float,
}
use coda_node.Ir.{GateOp, IrMetadata, NativeGateIr, Validated, valid, invalid, validate}
use coda_node.Qasm.Patterns.{
  header_re, include_re, bit_decl_re, qubit_decl_re, measure_re, GateLine, gate_re, find_all,
}
use coda_node.Qasm.Gates.{
  Floats, multiple_registers, no_register, unsupported_line, invalid_ir, value_error, Result, ok,
  err, ◌>>=◌, openqasm_gate_to_ir,
}

-- The variables of the loop over the lines.
pub record Circuit : Type 0 where
  pub num_qubits : Option ℤ
  pub gates : List GateOp
  pub measurements : List ℤ

abbrev pub empty_circuit : Circuit
empty_circuit = record { num_qubits = none; gates = []; measurements = [] }

abbrev pub or_value_error : {A : Type 0} → Option A → Result A
or_value_error none = err value_error
or_value_error (some a) = ok a

-- `int(text)`
abbrev pub int : List ℕ → Result ℤ
int t = or_value_error (parse_int t)

abbrev pub ints : List (List ℕ) → Result (List ℤ)
ints [] = ok []
ints (t ∷ ts) = do n ← int t; ns ← ints ts; ok (n ∷ ns)

abbrev pub matches : {A : Type 0} → Option A → Bool
matches none = false
matches (some a) = true

-- An empty line, a comment, the header, an include or a register of bits.
abbrev pub is_skipped : List ℕ → Bool
is_skipped line =
    is_empty line
    || starts_with (codes "//") line
    || matches (header_re line)
    || matches (include_re line)
    || matches (bit_decl_re line)

abbrev pub declare : List ℕ → Circuit → Option ℤ → Result Circuit
declare size c none = do n ← int size; ok (record c { num_qubits = some n })
declare size c (some _) = err multiple_registers

abbrev pub measure : List ℕ → Circuit → Result Circuit
measure index c = do q ← int index; ok (record c { measurements = c.measurements ++ q ∷ [] })

abbrev pub placeholder : String → IrMetadata
placeholder now = record {
  source_hash = "sha256:from-qasm";
  compiled_at = now;
  compiler_version = "0.1.0";
  optimization_level = pos 2;
}

abbrev pub metadata_or : String → Option IrMetadata → IrMetadata
metadata_or now none = placeholder now
metadata_or now (some m) = m

abbrev pub checked : Validated → Result NativeGateIr
checked (valid ir) = ok ir
checked (invalid es) = err (invalid_ir es)

module _ (f : Floats) (target : String) where
  abbrev pub floats : List (List ℕ) → Result (List Float)
  floats [] = ok []
  floats (t ∷ ts) = do x ← or_value_error (f.parse (strip t)); xs ← floats ts; ok (x ∷ xs)

  -- The text between the parentheses, if there are any and they hold something.
  abbrev pub params_of : Option (List ℕ) → Result (List Float)
  params_of none = ok []
  params_of (some []) = ok []
  params_of (some (c ∷ t)) = floats (split b',' (c ∷ t))

  unfoldable pub add_gate : GateLine → Circuit → Result Circuit
  add_gate g c = do
    params ← params_of g.params
    qubits ← ints (find_all (length g.qubits) g.qubits)
    op ← openqasm_gate_to_ir f g.name params qubits target
    ok (record c { gates = c.gates ++ op ∷ [] })

  abbrev pub read_gate : List ℕ → Circuit → Option GateLine → Result Circuit
  read_gate line c (some g) = add_gate g c
  read_gate line c none = err (unsupported_line line)

  abbrev pub read_measure : List ℕ → Circuit → Option (List ℕ) → Result Circuit
  read_measure line c (some index) = measure index c
  read_measure line c none = read_gate line c (gate_re line)

  abbrev pub read_declaration : List ℕ → Circuit → Option (List ℕ) → Result Circuit
  read_declaration line c (some size) = declare size c c.num_qubits
  read_declaration line c none = read_measure line c (measure_re line)

  -- The body of the loop.
  unfoldable pub read_line : List ℕ → Circuit → Result Circuit
  read_line line c = if is_skipped line then ok c else read_declaration line c (qubit_decl_re line)

  unfoldable pub read_lines : List (List ℕ) → Circuit → Result Circuit
  read_lines [] c = ok c
  read_lines (raw ∷ lines) c = do c' ← read_line (strip raw) c; read_lines lines c'

  abbrev pub build : IrMetadata → Circuit → Option ℤ → Result NativeGateIr
  build metadata c none = err no_register
  build metadata c (some n) = checked (
      validate (record {
        version = "1.0";
        target = target;
        num_qubits = n;
        gates = c.gates;
        measurements = c.measurements;
        metadata = metadata;
      }))

  -- openqasm_to_ir; `now` is the time of the call.
  unfoldable pub openqasm_to_ir : String → List ℕ → Option IrMetadata → Result NativeGateIr
  openqasm_to_ir now qasm metadata = do
    c ← read_lines (splitlines (strip qasm)) empty_circuit
    build (metadata_or now metadata) c c.num_qubits
