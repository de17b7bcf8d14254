-- ===== src/Artifact.antt =====
-- src/v2/artifact.rs: artifacts and their provenance.
pub mod Shape
pub mod Record
pub mod Ancestry
pub mod Derivation
pub mod Provenance
pub mod Examples
