-- ===== src/Tests.antt =====
-- The theorems at concrete inputs: a bell circuit, an HTTP service, and a consumer with its services.
pub mod Applications
pub mod Circuits
pub mod Deliveries
pub mod Jobs
pub mod Nodes
pub mod Daemons
pub mod Heartbeats
pub mod Settings
pub mod Programs
pub mod Devices
pub mod Commands
pub mod Tokens
pub mod Keys
pub mod Logs
