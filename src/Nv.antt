-- ===== src/Nv.antt =====
-- NV Index storage, src/tpm/core/nv.rs.
pub mod Index
pub mod Store
pub mod Access
pub mod Mark
pub mod Increment
pub mod Counter
