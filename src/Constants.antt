-- ===== src/Constants.antt =====
-- The Part 2 constant tables, src/tpm/constants.rs, and the implementation dependent values,
-- src/tpm/config.rs: the entries that the modelled code names.
pub mod Alg
pub mod Config
pub mod Handles
pub mod Rc
pub mod Se
pub mod Eo
pub mod Cc
