-- ===== src/Routing.antt =====
-- src/session-routing and src/model-selection.ts: which session a run gets, and its model.
pub mod Sessions
pub mod Reuse
pub mod Models
mod Tests
