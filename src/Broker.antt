-- ===== src/Broker.antt =====
-- src/relay-broker: the parts that the relay's facade is made of.
pub mod Errors
pub mod Journal
pub mod Permissions
pub mod Reconciler
pub mod Facade
pub mod Admission
