-- ===== src/Hierarchies.antt =====
-- Hierarchies and their seeds, src/tpm/core/hierarchy.rs.
pub mod State
pub mod Changes
pub mod Seeds
pub mod Cleared
