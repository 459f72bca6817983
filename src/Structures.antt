-- ===== src/Structures.antt =====
-- The Part 2 structures that the modelled components name, src/tpm/structures.
pub mod Base
pub mod Attributes
pub mod Nv
pub mod RoundTrip
pub mod Schemes
