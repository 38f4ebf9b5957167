-- ===== src/User.antt =====
-- The crate of users: backend/crates/user.
pub mod Family
