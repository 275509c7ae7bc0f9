-- ===== src/Plan/Invariant.antt =====
-- Validity of a plan state under the methods of PlanController (src/runtime/plan/controller.py).
pub mod Ledger
mod Progress
mod Drafting
pub mod Methods
pub mod Updates
pub mod Calls
