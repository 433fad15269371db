-- ===== src/Qasm.antt =====
-- OpenQASM text and native-gate circuits (server/qasm.py).
pub mod Patterns
pub mod Gates
pub mod Parser
pub mod Printer
pub mod Lines
pub mod Texts
pub mod Reading
pub mod Written
pub mod RoundTrip
pub mod Accepted
pub mod Printable
