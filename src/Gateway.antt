-- ===== src/Gateway.antt =====
-- The handlers of the gateway itself (backend/crates/gateway).
pub mod Cluster
