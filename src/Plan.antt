-- ===== src/Plan.antt =====
-- The plan lifecycle (src/runtime/plan).
pub mod Models
pub mod Validation
pub mod Controller
pub mod Invariant
pub mod Capabilities
pub mod Gate
pub mod Authorized
pub mod Safety
pub mod Transitions
pub mod Evidence
