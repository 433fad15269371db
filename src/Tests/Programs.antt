-- ===== src/Tests/Programs.antt =====
-- OpenQASM texts (server/qasm.py). A float is printed here as the number of its bit pattern.
use coda_node.Prelude.{
  ℕ, ◌≡◌, ◌↔◌, refl, ap, true, Option, none, some, List, [], ◌∷◌, ◌==◌, All, arith, codes, ℤ, pos,
  Float, Digits, numeral, numeral-Digits, numeral-cons, parse_int, parse_int-numeral, splitlines,
  split, lstrip, rstrip, strip,
}
use coda_node.Ir.{
  wrong_params, cnot, id, x90, y_minus_90, virtual_z, NativeGateIr, validate, valid,
  validate_gate_shape, check_gates, check_qubits, check_measurements, validate_consistency,
  field_errors, validate_target,
}
use coda_node.Qasm.Patterns.{
  header_re, include_re, bit_decl_re, qubit_decl_re, measure_re, further, operands, gate_re,
  find_all,
}
use coda_node.Qasm.Gates.{
  Floats, ok, err, invalid_gate, value_error, gate_op, openqasm_gate_to_ir_cz,
  openqasm_gate_to_ir_cnot, openqasm_gate_to_ir, ir_gate_to_openqasm_cnot,
}
use coda_node.Qasm.Printer.{ir_gate_to_openqasm, gate_lines, ir_to_openqasm}
use coda_node.Qasm.Parser.{
  empty_circuit, metadata_or, add_gate, read_line, read_lines, openqasm_to_ir,
}
use coda_node.Qasm.Reading.{is_numeral_char}
use coda_node.Qasm.RoundTrip.Gate.{IsExact, Reads}
use coda_node.Qasm.RoundTrip.Circuit.{stripped, openqasm_to_ir-ir_to_openqasm}
use coda_node.Qasm.Accepted.{openqasm_to_ir_valid}
use coda_node.Qasm.Printable.{IsPrintable, ir_to_openqasm_iff}
use coda_node.Tests.Circuits.{metadata}

abbrev as_float : Option ℤ → Option Float
as_float (some (pos n)) = some (record { bits = n })
as_float _ = none

abbrev bits : Floats
bits = record {
  format = λ x. numeral x.bits;
  parse = λ t. as_float (parse_int t);
  is_close = λ x. x.bits == 7;
  minus_half_pi = record { bits = 7 };
}

abbrev turn : Float
turn = record { bits = 12 }

-- Each gate of the `cnot` target.
abbrev program : NativeGateIr
program = record {
  version = "1.0";
  target = "cnot";
  num_qubits = pos 2;
  gates =
      record { gate = virtual_z; qubits = pos 0 ∷ []; params = turn ∷ [] }
      ∷ record { gate = x90; qubits = pos 1 ∷ []; params = [] }
      ∷ record { gate = y_minus_90; qubits = pos 1 ∷ []; params = [] }
      ∷ record { gate = cnot; qubits = pos 0 ∷ pos 1 ∷ []; params = [] }
      ∷ record { gate = id; qubits = pos 0 ∷ []; params = turn ∷ [] }
      ∷ [];
  measurements = pos 1 ∷ pos 0 ∷ [];
  metadata = metadata;
}

abbrev program_text : List ℕ
program_text =
    codes
      "OPENQASM 3.0;\ninclude \"stdgates.inc\";\nqubit[2] q;\nbit[2] c;\nrz(12) q[0];\nsx q[1];\nry(7) q[1];\ncx q[0], q[1];\nid q[0];\nc[0] = measure q[1];\nc[1] = measure q[0];\n"

prints : ir_to_openqasm bits program ≡ ok program_text
unfolding ir_to_openqasm gate_lines ir_gate_to_openqasm ir_gate_to_openqasm_cnot numeral
prints = refl

reads : openqasm_to_ir bits "cnot" "" program_text (some metadata) ≡ ok (stripped program)
unfolding openqasm_to_ir read_lines read_line add_gate header_re include_re bit_decl_re
    qubit_decl_re measure_re gate_re further operands find_all openqasm_gate_to_ir
    openqasm_gate_to_ir_cnot gate_op validate_gate_shape validate field_errors validate_target
    validate_consistency check_gates check_qubits check_measurements splitlines strip lstrip rstrip
    split parse_int
reads = refl

program_valid : validate program ≡ valid program
unfolding validate field_errors validate_target validate_gate_shape validate_consistency check_gates
    check_qubits check_measurements
program_valid = refl

numeral_chars : (t : List ℕ) → Digits t → All (λ c. is_numeral_char c ≡ true) t
numeral_chars [] h = tt
numeral_chars (c ∷ t) (p, h) = (ground arith, numeral_chars t h)

bits-IsExact : IsExact bits
bits-IsExact = record {
  numerals = λ x. (
    λ e. let (c, s, h) = numeral-cons x.bits in cc (e, h),
    numeral_chars _ (numeral-Digits x.bits),
  );
  half_pi = record { bits = 7 };
  half_pi_read = ap as_float (parse_int-numeral 7);
  half_pi_close = refl;
}

turn-Reads : Reads bits turn
turn-Reads = ap as_float (parse_int-numeral 12)

openqasm_to_ir-ir_to_openqasm_example :
    openqasm_to_ir bits "cnot" "" program_text (some metadata) ≡ ok (stripped program)
openqasm_to_ir-ir_to_openqasm_example =
    openqasm_to_ir-ir_to_openqasm bits bits-IsExact "" program program_text program_valid
      ((turn-Reads, tt), (tt, (tt, (tt, (tt, tt))))) prints

openqasm_to_ir_valid_example :
    (validate (stripped program) ≡ valid (stripped program))
    × ((stripped program).target ≡ "cnot")
    × (metadata ≡ metadata_or "" (some metadata))
openqasm_to_ir_valid_example =
    openqasm_to_ir_valid bits "cnot" "" program_text (some metadata) reads

ir_to_openqasm_iff_example :
    ((text : List ℕ) × (ir_to_openqasm bits program ≡ ok text)) ↔ IsPrintable "cnot" program.gates
ir_to_openqasm_iff_example = ir_to_openqasm_iff bits program program_valid

-- What is no number, and what lacks an angle, does not raise a QASMConversionError.
symbolic_angle : read_line bits "cz" (codes "rx(pi/2) q[0];") empty_circuit ≡ err value_error
unfolding read_line add_gate header_re include_re bit_decl_re qubit_decl_re measure_re gate_re
    further operands split strip lstrip rstrip parse_int
symbolic_angle = refl

missing_angle :
    read_line bits "cz" (codes "rx q[0];") empty_circuit
    ≡ err (invalid_gate (wrong_params "rx" 1 0))
unfolding read_line add_gate header_re include_re bit_decl_re qubit_decl_re measure_re gate_re
    further operands find_all openqasm_gate_to_ir openqasm_gate_to_ir_cz gate_op validate_gate_shape
    strip lstrip rstrip parse_int
missing_angle = refl
