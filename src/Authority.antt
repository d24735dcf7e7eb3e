-- ===== src/Authority.antt =====
-- src/authority: which relay process owns a Host.
pub mod Registry
pub mod Ownership
pub mod Retry
mod Tests
