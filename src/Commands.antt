-- ===== src/Commands.antt =====
-- The commands, src/tpm/commands.
pub mod Table
pub mod Shape
pub mod Request
pub mod Policy
pub mod Registers
pub mod Measured
