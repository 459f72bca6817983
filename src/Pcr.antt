-- ===== src/Pcr.antt =====
-- Platform Configuration Registers, src/tpm/core/pcr.rs.
pub mod Profile
pub mod Banks
pub mod Update
pub mod Selection
pub mod Valid
pub mod Registers
pub mod After
pub mod Digest
pub mod Extend
pub mod Promises
pub mod Rewrite
pub mod Reset
pub mod Preserved
pub mod Allocation
pub mod Clear
pub mod Requests
pub mod Histories
pub mod Saved
