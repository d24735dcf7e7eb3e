-- ===== src/Monitoring.antt =====
-- src/monitoring: what a client that polls the relay sees.
pub mod Cursor
pub mod Buffer
pub mod Summary
