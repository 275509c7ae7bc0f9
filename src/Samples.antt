-- ===== src/Samples.antt =====
-- Concrete runs: each theorem with conditions is applied to a case where they hold.
pub mod Runs
pub mod Plans
pub mod Sessions
pub mod Permissions
pub mod Calls
pub mod Commands
pub mod Contexts
pub mod Edits
pub mod Environments
pub mod Verifications
