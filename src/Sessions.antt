-- ===== src/Sessions.antt =====
-- Authorization sessions, src/tpm/core/session.rs.
pub mod Policy
pub mod Session
pub mod Keys
pub mod Slots
pub mod Moves
pub mod Status
pub mod Coherent
pub mod Handles
pub mod Flush
pub mod Histories
pub mod Preserved
pub mod Cycles
pub mod Refines
pub mod Progress
pub mod Replay
pub mod Contexts
