-- ===== src/Agent.antt =====
-- The device agent (agent/src).
pub mod Base64
pub mod Delta
pub mod Queue
pub mod Tunnel
pub mod Jail
