-- ===== src/Tests.antt =====
-- The theorems at concrete inputs.
mod Fixtures
mod Octets
mod Keys
mod Counters
mod Timer
mod Registers
mod Storage
mod Seeds
mod Sessions
mod Policies
mod Commands
mod Guesses
mod Measurements
