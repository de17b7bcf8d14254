-- ===== src/Envelope.antt =====
-- src/v2/envelope.rs: the agent URNs, the kind registry, and the envelope with its checks.
pub mod Urn
pub mod Kinds
pub mod Message
pub mod Body
mod Examples
