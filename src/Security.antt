-- ===== src/Security.antt =====
-- src/runtime/security: what a tool call may do, and who decides it.
pub mod Rules
pub mod Shell
pub mod Risk
pub mod Models
pub mod Approval
pub mod Classification
pub mod Gate
pub mod Access
pub mod Environment
pub mod Redaction
