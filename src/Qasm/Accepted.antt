-- ===== src/Qasm/Accepted.antt =====
-- What `openqasm_to_ir` returns is a valid circuit (server/qasm.py).
use coda_node.Prelude.{ℕ, ◌≡◌, sym, ap, subst, String, Option, none, some, List, [], ◌∷◌, ℤ}
use coda_node.Ir.{
  IrMetadata, IrError, NativeGateIr, Validated, valid, invalid, validate, validate_consistency,
  field_errors,
}
use coda_node.Qasm.Gates.{Floats, ok}
use coda_node.Qasm.Parser.{
  Circuit, empty_circuit, checked, metadata_or, read_lines, build, openqasm_to_ir,
}
use coda_node.Qasm.RoundTrip.Gate.{refused}
use coda_node.Qasm.RoundTrip.Loop.{bind_ok}

-- Validation answers with the circuit that it was given.
validate-same : (x : NativeGateIr) {y : NativeGateIr} → validate x ≡ valid y → x ≡ y
unfolding validate
validate-same x h = go (field_errors x) (validate_consistency x) h
  where
    inj : {a b : NativeGateIr} → valid a ≡ valid b → a ≡ b
    inj e = cc

    clash : {es : List IrError} {a : NativeGateIr} → invalid es ≡ valid a → ⊥
    clash e = cc

    go :
        (es : List IrError) (o : Option IrError) {y : NativeGateIr}
        → elim es [
          | e ∷ es ↦ invalid (e ∷ es)
          | [] ↦ elim o [ some e ↦ invalid (e ∷ []) | none ↦ valid x ]
        ]
          ≡ valid y
        → x ≡ y
    go [] none h = inj h
    go [] (some e) h = absurd (clash h)
    go (e ∷ es) o h = absurd (clash h)

checked-valid : (v : Validated) {y : NativeGateIr} → checked v ≡ ok y → v ≡ valid y
checked-valid (valid x) h = cc
checked-valid (invalid es) h = absurd (refused h)

-- A circuit that is read from text is valid, and has the target and the metadata that were asked for.
pub openqasm_to_ir_valid :
    (f : Floats) (target now : String) (qasm : List ℕ) (metadata : Option IrMetadata)
    {ir : NativeGateIr}
    → openqasm_to_ir f target now qasm metadata ≡ ok ir
    → (validate ir ≡ valid ir) × (ir.target ≡ target) × (ir.metadata ≡ metadata_or now metadata)
unfolding openqasm_to_ir
openqasm_to_ir_valid f target now qasm metadata {ir} h =
    let (c, g, e) = bind_ok (read_lines f target _ empty_circuit) _ h in finish c c.num_qubits g
  where
    finish :
        (c : Circuit) (n : Option ℤ)
        → build f target (metadata_or now metadata) c n ≡ ok ir
        → (validate ir ≡ valid ir) × (ir.target ≡ target) × (ir.metadata ≡ metadata_or now metadata)
    finish c none g = absurd (refused g)
    finish c (some n) g =
        let v = checked-valid _ g in
        let same = validate-same _ v in
        (
          subst (λ x. validate x ≡ valid ir) same v,
          sym (ap (λ x. x.target) same),
          sym (ap (λ x. x.metadata) same),
        )
