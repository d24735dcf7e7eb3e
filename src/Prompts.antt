-- ===== src/Prompts.antt =====
-- What a caller asks for: src/prompt.ts and src/relay-broker/run-input.ts.
pub mod Base64
pub mod Content
pub mod Limits
pub mod Scope
pub mod Sound
mod Tests
