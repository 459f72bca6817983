-- ===== src/Commands/Policy.antt =====
-- The policy commands, src/tpm/commands/policy.rs.
pub mod Steps
pub mod Assertions
pub mod Plans
pub mod Carried
pub mod Refused
pub mod Trials
pub mod Restricted
pub mod Guarded
pub mod Restrictions
pub mod Frame
pub mod Handlers
pub mod Answers
pub mod Selected
pub mod Failures
pub mod Scope
pub mod Authorizations
pub mod Orders
