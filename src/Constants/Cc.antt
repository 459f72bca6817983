-- ===== src/Constants/Cc.antt =====
-- The command codes that the table names, `mod cc` of src/tpm/constants.rs.
mod Low
mod High
pub use Low.*
pub use High.*
