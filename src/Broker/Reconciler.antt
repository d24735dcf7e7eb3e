-- ===== src/Broker/Reconciler.antt =====
-- src/relay-broker/run-reconciler.ts.
pub mod History
pub mod Complete
pub mod Run
pub mod Finish
pub mod Refresh
pub mod Ending
pub mod Settles
pub mod Evidence
pub mod Success
pub mod Tests
