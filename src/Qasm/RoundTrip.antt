-- ===== src/Qasm/RoundTrip.antt =====
-- Printing a circuit and reading the text gives the circuit back (server/qasm.py).
pub mod Gate
pub mod Printed
pub mod Loop
pub mod Circuit
