-- ===== src/Context.antt =====
-- What the model has seen, and how full its context is (src/runtime/context).
pub mod SourceState
pub mod Budget
pub mod Messages
pub mod Rounds
pub mod Candidate
pub mod Manager
