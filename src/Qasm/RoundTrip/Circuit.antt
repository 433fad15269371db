-- ===== src/Qasm/RoundTrip/Circuit.antt =====
-- The round trip of a whole circuit (server/qasm.py).
use coda_node.Prelude.{
  ℕ, ◌≡◌, refl, sym, ap, subst, ◌∙◌, String, some, List, [], ◌∷◌, ◌++◌, All, codes, ℤ, pos, negsuc,
  Float,
}
use coda_node.Ir.{NativeGate, rx, id, GateOp, NativeGateIr, valid, validate}
use coda_node.Ir.Spec.{Between, IsWellFormed, IsWellShaped, IsPlaced}
use coda_node.Ir.Validation.{validate_iff}
use coda_node.Qasm.Gates.{Floats, ok, ◌>>=◌}
use coda_node.Qasm.Parser.{
  Circuit, empty_circuit, checked, read_line, read_lines, build, openqasm_to_ir,
}
use coda_node.Qasm.Printer.{
  joined, qubit_line, bit_lines, measure_lines, gate_lines, ir_to_openqasm,
}
use coda_node.Qasm.Lines.{IsLine, lines-joined}
use coda_node.Qasm.Written.{
  header-IsLine, include-IsLine, qubit_line-IsLine, bit_lines-IsLine, measure_lines-IsLine,
}
use coda_node.Qasm.RoundTrip.Gate.{IsExact, Survives, without_duration}
use coda_node.Qasm.RoundTrip.Loop.{
  without_durations, naturals, bind_ok, injective, step, read_measurements, read_qubit_line,
  read_bit_lines, read_preamble, read_gates,
}

gate-IsWellShaped :
    (g : NativeGate) (qs : List ℤ) (ps : List Float)
    → IsWellShaped (record { gate = g; qubits = qs; params = ps })
    → IsWellShaped (without_duration (record { gate = g; qubits = qs; params = ps }))
gate-IsWellShaped id qs ps s = record { qubits = s.qubits; params = refl }
gate-IsWellShaped rx qs ps s = s
gate-IsWellShaped _ qs ps s = s

gates-IsWellShaped :
    (ops : List GateOp) → All IsWellShaped ops → All IsWellShaped (without_durations ops)
gates-IsWellShaped [] h = tt
gates-IsWellShaped (op ∷ ops) (s, h) =
    (gate-IsWellShaped op.gate op.qubits op.params s, gates-IsWellShaped ops h)

gates-IsPlaced :
    (target : String) (n : ℤ) (ops : List GateOp)
    → All (IsPlaced target n) ops
    → All (IsPlaced target n) (without_durations ops)
gates-IsPlaced target n [] h = tt
gates-IsPlaced target n (op ∷ ops) (p, h) =
    (record { legal = p.legal; in_range = p.in_range }, gates-IsPlaced target n ops h)

-- The circuit, but for the durations.
abbrev pub stripped : NativeGateIr → NativeGateIr
stripped ir = record ir { gates = without_durations ir.gates }

stripped-IsWellFormed : (ir : NativeGateIr) → IsWellFormed ir → IsWellFormed (stripped ir)
stripped-IsWellFormed ir w = record {
  version = w.version;
  target = w.target;
  num_qubits = w.num_qubits;
  level = w.level;
  shapes = gates-IsWellShaped ir.gates w.shapes;
  placed = gates-IsPlaced ir.target ir.num_qubits ir.gates w.placed;
  measured = w.measured;
}

All-append : (ls ms : List (List ℕ)) → All IsLine ls → All IsLine ms → All IsLine (ls ++ ms)
All-append [] ms h k = k
All-append (l ∷ ls) ms (p, h) k = (p, All-append ls ms h k)

module _ (f : Floats) (exact : IsExact f) (ir : NativeGateIr) (w : IsWellFormed ir)
    (survive : All (Survives f) ir.gates) (gates : List (List ℕ))
    (printed : gate_lines f ir.target ir.gates ≡ ok gates) where
  all_lines : List (List ℕ)
  all_lines =
      codes "OPENQASM 3.0;"
      ∷ codes "include \"stdgates.inc\";"
      ∷ qubit_line ir.num_qubits
      ∷ (bit_lines ir.measurements ++ (gates ++ measure_lines 0 ir.measurements))

  body-IsLine : All IsLine (bit_lines ir.measurements ++ (gates ++ measure_lines 0 ir.measurements))
  body-IsLine = All-append (bit_lines ir.measurements) _ (bit_lines-IsLine ir.measurements) (
      All-append gates (measure_lines 0 ir.measurements)
        (read_gates f ir.target exact ir.num_qubits ir.gates gates (measure_lines 0 ir.measurements)
          printed w.shapes w.placed survive).0
        (measure_lines-IsLine 0 ir.measurements))

  all_lines-IsLine : All IsLine all_lines
  unfolding all_lines
  all_lines-IsLine =
      (header-IsLine, (include-IsLine, (qubit_line-IsLine ir.num_qubits, body-IsLine)))

  read_size :
      (n : ℤ)
      → Between 1 50 n
      → read_line f ir.target (qubit_line n) empty_circuit
        ≡ ok (record { num_qubits = some n; gates = []; measurements = [] })
  read_size (pos n) h = read_qubit_line f ir.target n
  read_size (negsuc n) h = elim h [ ]

  all_read :
      read_lines f ir.target all_lines empty_circuit
      ≡ ok (record {
        num_qubits = some ir.num_qubits;
        gates = without_durations ir.gates;
        measurements = ir.measurements;
      })
  unfolding all_lines
  all_read =
      let body : List (List ℕ) = gates ++ measure_lines 0 ir.measurements in
      let start : Circuit = record {
        num_qubits = some ir.num_qubits;
        gates = [];
        measurements = [];
      } in
      read_preamble f ir.target (qubit_line ir.num_qubits ∷ (bit_lines ir.measurements ++ body))
        empty_circuit
      ∙ step f ir.target (qubit_line ir.num_qubits) (bit_lines ir.measurements ++ body)
          empty_circuit (qubit_line-IsLine ir.num_qubits) (read_size ir.num_qubits w.num_qubits)
      ∙ read_bit_lines f ir.target ir.measurements body start
      ∙ (read_gates f ir.target exact ir.num_qubits ir.gates gates (measure_lines 0 ir.measurements)
            printed w.shapes w.placed survive).1
          start
      ∙ read_measurements f ir.target 0 ir.measurements
          (record start { gates = without_durations ir.gates })
          (naturals ir.num_qubits ir.measurements w.measured)

  built :
      build f ir.target ir.metadata
        (record {
          num_qubits = some ir.num_qubits;
          gates = without_durations ir.gates;
          measurements = ir.measurements;
        })
        (some ir.num_qubits)
      ≡ ok (stripped ir)
  built =
      subst
        (λ v.
          checked (validate (record (stripped ir) { version = v }))
          ≡ ok (record (stripped ir) { version = v }))
        w.version (ap checked ((validate_iff (stripped ir)).1 (stripped-IsWellFormed ir w)))
      ∙ ap (λ v. ok (record (stripped ir) { version = v })) (sym w.version)

  read_back :
      (now : String)
      → openqasm_to_ir f ir.target now (joined all_lines ++ 10 ∷ []) (some ir.metadata)
        ≡ ok (stripped ir)
  unfolding openqasm_to_ir all_lines
  read_back now =
      ap
        (λ ls. read_lines f ir.target ls empty_circuit >>= λ c.
          build f ir.target ir.metadata c c.num_qubits)
        (lines-joined (codes "OPENQASM 3.0;") _ all_lines-IsLine)
      ∙ ap (λ r. r >>= λ c. build f ir.target ir.metadata c c.num_qubits) all_read
      ∙ built

-- A valid circuit that the printer accepts is read back from its text, with its target and metadata: the
-- same circuit, but for the durations of `id` gates, which become zero. The angles must be floats that
-- their printed digits determine, which is what `float(f"{x:.15g}") == x` says.
pub openqasm_to_ir-ir_to_openqasm :
    (f : Floats) (exact : IsExact f) (now : String) (ir : NativeGateIr) (text : List ℕ)
    → validate ir ≡ valid ir
    → All (Survives f) ir.gates
    → ir_to_openqasm f ir ≡ ok text
    → openqasm_to_ir f ir.target now text (some ir.metadata) ≡ ok (stripped ir)
unfolding ir_to_openqasm all_lines
openqasm_to_ir-ir_to_openqasm f exact now ir text v survive h =
    let (gates, h1, e) = bind_ok (gate_lines f ir.target ir.gates) _ h in
    subst (λ t. openqasm_to_ir f ir.target now t (some ir.metadata) ≡ ok (stripped ir))
      (injective h1) (read_back f exact ir ((validate_iff ir).0 v) survive gates e now)
