-- ===== src/Files.antt =====
-- File storage and file metadata (backend/crates/file_metadata).
pub mod Storage
pub mod Resumable
pub mod Placement
pub mod Table
pub mod Service
