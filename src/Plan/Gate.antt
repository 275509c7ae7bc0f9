-- ===== src/Plan/Gate.antt =====
-- src/runtime/plan/gate.py: PlanGate.check, with what a blocked call is told.
use local_coding_agent_harne.Prelude.{
  Bool, true, false, ◌&&◌, ◌||◌, Option, none, some, Text, if◌then◌else◌,
}
use local_coding_agent_harne.Plan.Models.{
  PlanPolicy, ExecutionPath, PlanPhase, phase_is, policy_is, path_is, PlanState,
}
use local_coding_agent_harne.Plan.Validation.{is_manual}
use local_coding_agent_harne.Plan.Capabilities.{plan_capabilities, tool_is_visible}

-- Which of the messages the result carries.
pub data BlockReason : Type 0 where
  select_first planning_is_read_only unresolved_response waiting_for_approval : BlockReason
  wrong_phase : PlanPhase → BlockReason

pub record PlanBlock : Type 0 where
  pub tool : Text
  pub reason : BlockReason
  pub requires_mode_selection : Bool
  pub requires_plan_approval : Bool
  pub requires_plan_response_resolution : Bool

abbrev pub block_reason : Bool → PlanPhase → Bool → BlockReason
block_reason true phase pending = BlockReason.select_first
block_reason false PlanPhase.planning pending = BlockReason.planning_is_read_only
block_reason false PlanPhase.awaiting_approval pending =
    if pending then BlockReason.unresolved_response else BlockReason.waiting_for_approval
block_reason false phase pending = BlockReason.wrong_phase phase

abbrev pub block : PlanState → Bool → Text → PlanBlock
block s pending name =
    let undecided = path_is s.execution_path ExecutionPath.undecided in
    let resolve = phase_is s.phase PlanPhase.awaiting_approval && pending in
    record {
      tool = name;
      reason = block_reason undecided s.phase resolve;
      requires_mode_selection = undecided;
      requires_plan_approval =
          is_manual s.approval_policy
          && (phase_is s.phase PlanPhase.planning || phase_is s.phase PlanPhase.awaiting_approval);
      requires_plan_response_resolution = resolve;
    }

-- None lets the call through. `pending` is `has_pending_user_continuation()`.
unfoldable pub check : Option PlanState → Bool → Text → Option PlanBlock
check none pending name = none
check (some s) pending name =
    if policy_is s.policy PlanPolicy.off
    then none
    else let capabilities = plan_capabilities (some s) pending in
      if capabilities.can_execute_side_effects
      then none
      else if tool_is_visible capabilities name
      then none
      else some (block s pending name)
