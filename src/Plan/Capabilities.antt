-- ===== src/Plan/Capabilities.antt =====
-- src/runtime/plan/capabilities.py: what a plan state lets the model see and do.
use local_coding_agent_harne.Prelude.{
  Bool, true, false, not, ◌&&◌, Option, none, some, List, [], ◌∷◌, Text, codes, contains, is_nil,
  if◌then◌else◌,
}
use local_coding_agent_harne.Plan.Models.{
  PlanPolicy, ExecutionPath, PlanPhase, phase_is, policy_is, path_is, PlanState,
}

abbrev pub read_only_inspection_tools : List Text
read_only_inspection_tools =
    codes "list_dir"
    ∷ codes "grep"
    ∷ codes "read_file"
    ∷ codes "read_artifact"
    ∷ codes "view_diff"
    ∷ codes "history_list_windows"
    ∷ codes "history_list_items"
    ∷ codes "history_search_contents"
    ∷ codes "history_read_item"
    ∷ codes "mcp_tool_search"
    ∷ []

abbrev pub planning_actions : List Text
planning_actions = codes "replace_plan" ∷ codes "submit" ∷ codes "cancel" ∷ []

abbrev pub executing_actions : List Text
executing_actions =
    codes "update_step" ∷ codes "request_replan" ∷ codes "cancel" ∷ codes "complete" ∷ []

pub record PlanCapabilities : Type 0 where
  pub can_select_execution_mode : Bool
  pub can_update_plan : Bool
  pub can_resolve_plan_response : Bool
  pub can_execute_side_effects : Bool
  pub waiting_for_user : Bool
  pub visible_tool_names : Option (List Text)
  pub update_plan_actions : List Text

abbrev pub is_visible : Option (List Text) → Text → Bool
is_visible none name = true
is_visible (some names) name = contains name names

unfoldable pub tool_is_visible : PlanCapabilities → Text → Bool
tool_is_visible capabilities name = is_visible capabilities.visible_tool_names name

-- The capabilities with no plan, under the off policy, and on the direct path.
abbrev pub unrestricted : PlanCapabilities
unrestricted = record {
  can_select_execution_mode = false;
  can_update_plan = false;
  can_resolve_plan_response = false;
  can_execute_side_effects = true;
  waiting_for_user = false;
  visible_tool_names = none;
  update_plan_actions = [];
}

abbrev pub plan_actions : PlanPhase → List Text
plan_actions PlanPhase.planning = planning_actions
plan_actions PlanPhase.executing = executing_actions
plan_actions _ = []

abbrev pub visible_tools : Bool → PlanPhase → Bool → Option (List Text)
visible_tools true phase continued =
    some (codes "select_execution_mode" ∷ read_only_inspection_tools)
visible_tools false PlanPhase.planning continued =
    some (codes "update_plan" ∷ read_only_inspection_tools)
visible_tools false PlanPhase.awaiting_approval continued =
    some (if continued then codes "resolve_plan_response" ∷ [] else [])
visible_tools false PlanPhase.executing continued = none
visible_tools false _ continued = some []

abbrev pub can_select : PlanState → Bool
can_select s =
    policy_is s.policy PlanPolicy.auto
    && path_is s.execution_path ExecutionPath.undecided
    && phase_is s.phase PlanPhase.inactive

-- The state is none if the context has none.
unfoldable pub plan_capabilities : Option PlanState → Bool → PlanCapabilities
plan_capabilities none continued = unrestricted
plan_capabilities (some s) continued =
    if policy_is s.policy PlanPolicy.off
    then unrestricted
    else if path_is s.execution_path ExecutionPath.direct
    then unrestricted
    else record {
      can_select_execution_mode = can_select s;
      can_update_plan = not (is_nil (plan_actions s.phase));
      can_resolve_plan_response = phase_is s.phase PlanPhase.awaiting_approval && continued;
      can_execute_side_effects = phase_is s.phase PlanPhase.executing;
      waiting_for_user = phase_is s.phase PlanPhase.awaiting_approval;
      visible_tool_names = visible_tools (can_select s) s.phase continued;
      update_plan_actions = plan_actions s.phase;
    }
