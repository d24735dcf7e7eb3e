-- ===== src/Lock.antt =====
-- src/state-repository/file-lock-facade.ts: the lock file by which relay processes take turns.
pub mod Files
pub mod Record
pub mod Reclaim
pub mod NeverLost
pub mod Recovery
pub mod Acquire
pub mod Waiting
pub mod Exclusion
mod Tests
