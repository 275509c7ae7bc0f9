-- ===== src/Agent.antt =====
-- src/agent/loop.py: the decisions of the agent loop.
pub mod Responses
pub mod Recovery
pub mod Success
