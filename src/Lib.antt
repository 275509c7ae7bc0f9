-- ===== src/Lib.antt =====
-- A local coding agent: how it plans, what it may do, and what one tool call does.
--
-- The agent lets a language model work on a repository. A session holds one task at a time; the
-- task may have a plan, whose phase decides which tools the model sees and whether side effects
-- are possible. A tool call passes the registry, the plan's gate and the permission gate before
-- the tool runs, and the plan's transitions drive the task's status.
--
-- src/runtime/plan is modelled under Plan. Models and Validation are its models.py: PlanState,
--   PlanStep and `validate` as a list of tests in the order of the code. Controller is controller.py: one
--   function per method, in the modules below it; `perform` is a method of a controller that has
--   no listener. Capabilities and Gate are capabilities.py and gate.py. Invariant, Safety,
--   Evidence, Authorized and Transitions hold the proofs.
-- Task and Session are src/runtime/task.py and src/runtime/session.py. The session's listener
--   completes a plan method (Session.Tasks.plan_call) and may make a task transition; a task transition may
--   cancel the plan. Session.Continuation is also src/runtime/plan/resolution.py; Session.Files has
--   the sets of changed, created and deleted files.
-- Context is src/runtime/context: source_state.py, the lines of a file that have been read;
--   budget.py, the pressure on the context window; manager.py, the replacement of old messages by a
--   checkpoint. Rounds are the groups of messages that the protocol of tools keeps together,
--   Candidate the new list of messages, Manager `prepare_context`.
-- Security is src/runtime/security: permission_gate.py, approval.py, permission_rules.py and
--   permission_models.py; Shell is shell_analysis.py, Risk is risk_classifier.py, Access is
--   access_policy.py, Environment is environment_policy.py and Redaction is redaction.py. Session, access policy and classifier
--   reach the gate as the record Surroundings; Gate.Commands puts the repository's classifier into
--   it, Access the repository's policy.
-- Execution is src/runtime/executor.py, src/runtime/hooks/manager.py, src/tools/registry.py, and
--   the policies progress.py, call_budget.py and recovery.py, which bound a task; Tracking, Output and
--   Large are src/runtime/hooks/tracking.py and policy.py.
-- Tools is src/tools/edit_file.py: the search of an occurrence, and a call with its guards.
-- Agent is src/agent/loop.py: the action of a response, the recovery from an overflow, and
--   `infer_success` over what Execution.Tracking keeps.
-- Samples has concrete runs to which the theorems are applied.
--
-- Methods that mutate and may raise return an outcome with the state, so what was written before
-- an error stays visible. Text is the list of its code points; counts and versions are unbounded,
-- as in the program. `transition_task` and the controller's `cancel` call one another, so the
-- model has fuel. The session uses one level: the second transition finds the plan cancelled. The
-- scan for redirections and the grouping of messages have as much fuel as there are characters
-- and messages, since each round takes one.
--
-- Not under the program's own code, and so parameters: SHA-256, the clock, the rendering of JSON,
-- the regular expressions, shlex, urlparse, the codec of files, the case of a text and the order of
-- a set. Components that are not
-- modelled are interfaces: the resolution of paths for the gate and the access policy, the builder of
-- checkpoints and the model for the context manager. Not modelled: the loop around the agent's
-- decisions and the model client, the other tools' work on files and processes, the sandbox, MCP,
-- the stores and reports, which are input and output; messages and history windows of a session;
-- the projection of tool results.
mod Prelude
pub mod Plan
pub mod Task
pub mod Session
pub mod Context
pub mod Security
pub mod Execution
pub mod Tools
pub mod Agent
pub mod Samples
