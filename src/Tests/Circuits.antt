-- ===== src/Tests/Circuits.antt =====
-- Circuits for the validators of server/ir.py.
use coda_node.Prelude.{◌≡◌, ◌↔◌, refl, [], ◌∷◌, pos, negsuc, float_zero}
use coda_node.Ir.{
  rx, cz, cnot, NativeGateIr, IrMetadata, wrong_qubits, illegal_gate, bad_num_qubits, validate,
  valid, invalid, validate_gate_shape, check_gates, check_qubits, check_measurements,
  validate_consistency, field_errors, validate_target,
}
use coda_node.Ir.Spec.{IsWellFormed}
use coda_node.Ir.Validation.{validate_iff}

abbrev pub metadata : IrMetadata
metadata = record {
  source_hash = "sha256:0";
  compiled_at = "2026-01-01T00:00:00Z";
  compiler_version = "";
  optimization_level = pos 1;
}

-- A circuit for the `cz` target.
abbrev pub bell : NativeGateIr
bell = record {
  version = "1.0";
  target = "cz";
  num_qubits = pos 2;
  gates =
      record { gate = rx; qubits = pos 0 ∷ []; params = float_zero ∷ [] }
      ∷ record { gate = cz; qubits = pos 0 ∷ pos 1 ∷ []; params = [] }
      ∷ [];
  measurements = pos 0 ∷ pos 1 ∷ [];
  metadata = metadata;
}

bell_valid : validate bell ≡ valid bell
unfolding validate field_errors validate_target validate_gate_shape validate_consistency check_gates
    check_qubits check_measurements
bell_valid = refl

validate_iff_example : (validate bell ≡ valid bell) ↔ IsWellFormed bell
validate_iff_example = validate_iff bell

-- Three faults of fields are reported together, and then no others are looked for.
faults :
    validate (record bell {
      num_qubits = negsuc 0;
      gates = record { gate = cnot; qubits = pos 7 ∷ []; params = [] } ∷ [];
    })
    ≡ invalid (bad_num_qubits (negsuc 0) ∷ wrong_qubits "cnot" 2 1 ∷ [])
unfolding validate field_errors validate_target validate_gate_shape validate_consistency check_gates
    check_qubits check_measurements
faults = refl

-- A gate of another target's set, and a qubit past the end.
illegal :
    validate (record bell {
      gates = record { gate = cnot; qubits = pos 0 ∷ pos 1 ∷ []; params = [] } ∷ [];
    })
    ≡ invalid (illegal_gate "cnot" "cz" 0 ∷ [])
unfolding validate field_errors validate_target validate_gate_shape validate_consistency check_gates
    check_qubits check_measurements
illegal = refl
