-- ===== src/Plan/Controller/Selection.antt =====
-- src/runtime/plan/controller.py: select_execution_path, force_plan and reset.
use local_coding_agent_harne.Prelude.{
  Bool, not, ◌||◌, Option, none, some, [], ◌∷◌, Text, if◌then◌else◌, err, pure, lift, modify,
  require, require_all, ◌>>=◌, ◌>>◌,
}
use local_coding_agent_harne.Plan.Models.{
  PlanPolicy, PlanApprovalPolicy, ExecutionPath, PlanPhase, PlanFault, PlanRefusal, phase_is,
  policy_is, path_is, Env, PlanState,
}
use local_coding_agent_harne.Plan.Validation.{initial}
use local_coding_agent_harne.Plan.Controller.Base.{
  Body, invalid, refused, self, required_text, PlanAction,
}

-- The state that a selection writes.
unfoldable pub with_selection : ExecutionPath → Text → PlanState → PlanState
with_selection selected reason s = record s {
  execution_path = selected;
  selection_reason = some reason;
  phase = if path_is selected ExecutionPath.plan then PlanPhase.planning else s.phase;
}

-- The mode is none if ExecutionPath refuses it.
unfoldable pub select_execution_path : Option ExecutionPath → Text → Bool → Body
select_execution_path none reason mutated = λ s. (err (invalid PlanFault.bad_mode), s)
select_execution_path (some selected) reason mutated = do
  reason' ← lift (required_text reason)
  require (not (path_is selected ExecutionPath.undecided)) (invalid PlanFault.bad_mode)
  s ← self
  require_all (
      (policy_is s.policy PlanPolicy.auto, refused PlanRefusal.not_auto_policy)
      ∷ (path_is s.execution_path ExecutionPath.undecided, refused PlanRefusal.already_selected)
      ∷ (phase_is s.phase PlanPhase.inactive, refused PlanRefusal.wrong_selection_phase)
      ∷ (not mutated, refused PlanRefusal.has_mutations)
      ∷ [])
  modify (with_selection selected reason')
  pure (
      some (
        if path_is selected ExecutionPath.plan
        then PlanAction.selected_plan
        else PlanAction.selected_direct))

-- What `force_plan` writes before it checks the reason, and after.
unfoldable pub forced : PlanState → PlanState
forced s = record s {
  policy = PlanPolicy.required;
  execution_path = ExecutionPath.plan;
  phase = PlanPhase.planning;
}

unfoldable pub without_plan : Text → PlanState → PlanState
without_plan reason s = record s {
  selection_reason = some reason;
  steps = [];
  completion_ledger = [];
  version = 0;
  approved_version = none;
  approval_source = none;
}

unfoldable pub force_plan : Text → Bool → Body
force_plan reason mutated = do
  s ← self
  require_all (
      (not mutated, refused PlanRefusal.has_mutations)
      ∷ (
        not (phase_is s.phase PlanPhase.completed || phase_is s.phase PlanPhase.cancelled),
        refused PlanRefusal.already_over,
      )
      ∷ (not (path_is s.execution_path ExecutionPath.plan), refused PlanRefusal.already_planned)
      ∷ [])
  modify forced
  reason' ← lift (required_text reason)
  modify (without_plan reason')
  pure (some PlanAction.plan_forced_by_user)

-- `reset` writes every field of a fresh state; under the off policy nothing is recorded.
unfoldable pub reset : Env → PlanPolicy → PlanApprovalPolicy → Text → Body
reset env policy approval_policy goal = do
  modify (λ s. initial env policy approval_policy goal)
  if policy_is policy PlanPolicy.off then pure none else pure (some PlanAction.task_initialized)
