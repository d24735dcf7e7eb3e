-- ===== src/Events.antt =====
-- src/event-monitoring and src/run-events.ts: the Host's event streams and what is read from events.
pub mod Sequencer
pub mod RunEvents
pub mod Facade
