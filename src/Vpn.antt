-- ===== src/Vpn.antt =====
-- The VPN of a node (vpn/guard.py).
pub mod Interface
pub mod Guard
pub mod Permissions
pub mod Profile
pub mod Node
