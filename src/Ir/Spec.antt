-- ===== src/Ir/Spec.antt =====
-- Well-formed circuits, described without the tables of server/ir.py.
use coda_node.Prelude.{ℕ, ◌≤◌, ◌<◌, ◌≡◌, String, All, length, ℤ, pos, negsuc}
use coda_node.Ir.{NativeGate, rx, ry, rz, cz, iswap, cp, id, virtual_z, cnot, GateOp, NativeGateIr}

-- How many qubits and angles a gate takes.
abbrev pub qubit_arity : NativeGate → ℕ
qubit_arity cz = 2
qubit_arity iswap = 2
qubit_arity cp = 2
qubit_arity cnot = 2
qubit_arity _ = 1

abbrev pub param_arity : NativeGate → ℕ
param_arity rx = 1
param_arity ry = 1
param_arity rz = 1
param_arity cp = 1
param_arity id = 1
param_arity virtual_z = 1
param_arity _ = 0

-- Which hardware runs which gate.
abbrev pub LegalFor : String → NativeGate → Type 0
LegalFor target rx = Unit
LegalFor target ry = Unit
LegalFor target rz = Unit
LegalFor target id = Unit
LegalFor target cz = target ≡ "cz"
LegalFor target iswap = target ≡ "iswap"
LegalFor target cp = target ≡ "pcz"
LegalFor target _ = target ≡ "cnot"

-- The hardware targets that have a gate set.
pub data Target (target : String) : Type 0 where
  is_cz : target ≡ "cz" → Target target
  is_iswap : target ≡ "iswap" → Target target
  is_pcz : target ≡ "pcz" → Target target
  is_cnot : target ≡ "cnot" → Target target

-- lo ≤ n ≤ hi for an integer against naturals, and 0 ≤ q < n.
abbrev pub Between : ℕ → ℕ → ℤ → Type 0
Between lo hi (pos n) = (lo ≤ n) × (n ≤ hi)
Between lo hi (negsuc n) = ⊥

abbrev pub IsQubit : ℤ → ℤ → Type 0
IsQubit (pos n) (pos q) = q < n
IsQubit _ _ = ⊥

pub record IsWellShaped (op : GateOp) : Type 0 where
  pub qubits : length op.qubits ≡ qubit_arity op.gate
  pub params : length op.params ≡ param_arity op.gate

pub record IsPlaced (target : String) (n : ℤ) (op : GateOp) : Type 0 where
  pub legal : LegalFor target op.gate
  pub in_range : All (IsQubit n) op.qubits

pub record IsWellFormed (ir : NativeGateIr) : Type 0 where
  pub version : ir.version ≡ "1.0"
  pub target : Target ir.target
  pub num_qubits : Between 1 50 ir.num_qubits
  pub level : Between 0 3 ir.metadata.optimization_level
  pub shapes : All IsWellShaped ir.gates
  pub placed : All (IsPlaced ir.target ir.num_qubits) ir.gates
  pub measured : All (IsQubit ir.num_qubits) ir.measurements
