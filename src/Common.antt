-- ===== src/Common.antt =====
-- What the crates share (backend/crates/common, and the digests that several components compute).
pub mod Digest
pub mod Error
pub mod Result
pub mod Validation
pub mod Jwt
