-- ===== src/Security/Gate.antt =====
-- src/runtime/security/permission_gate.py: PermissionGate.
pub mod Accessible
pub mod Cleared
pub mod Commands
use local_coding_agent_harne.Prelude.{
  ℕ, ◌+◌, ◌==◌, Bool, true, false, not, ◌&&◌, ◌||◌, Option, none, some, List, [], ◌∷◌, ◌++◌, map,
  reverse, Text, codes, text_eq, contains, all_of, any_of, is_nil, is_none, leb, if◌then◌else◌,
}
use local_coding_agent_harne.Security.Classification.{prefix_or, classify_bash_operation}
use local_coding_agent_harne.Security.Rules.{RuleBehavior, match_rule}
use local_coding_agent_harne.Security.Models.{
  OperationKind, kind_is, PermissionMode, mode_is, PermissionBehavior, behavior_is, BashRisk,
  risk_is, BashRiskDecision, Operation, DecisionReason, PermissionDecision, create_decision,
  or_text, Permissions,
}

-- What the gate calls of other components: the classifier of commands, the session's safe_path
-- (none if it raises), the access policy, the path relative to the repository.
pub record Surroundings : Type 0 where
  pub classify_bash : Text → BashRiskDecision
  pub safe_path : Text → Option Text
  pub relative_path : Text → Text
  pub protected_write_references : Text → List Text
  pub protected_read_references : Text → List Text
  pub is_protected_resolved_read : Text → Bool
  pub is_protected_resolved_write : Text → Bool

-- A tool, applied to the arguments of one call. `verifies` says that the argument "purpose" is
-- "verify".
pub record ToolCall : Type 0 where
  pub name : Text
  pub operation : Operation
  pub verifies : Bool
  pub check_permissions : Operation → Option PermissionDecision

-- One decision of the gate.
abbrev pub gate_decision :
    PermissionBehavior → Operation → Option Bool → DecisionReason → PermissionDecision
gate_decision behavior operation terminal reason =
    create_decision behavior (some operation) none false terminal reason

abbrev pub when : Bool → PermissionDecision → Option PermissionDecision
when test decision = if test then some decision else none

infixr 30 ◌<|>◌
-- The first of two decisions.
abbrev pub ◌<|>◌ : Option PermissionDecision → Option PermissionDecision → Option PermissionDecision
some d <|> e = some d
none <|> e = e

abbrev pub is_mutation : OperationKind → Bool
is_mutation kind = kind_is kind OperationKind.fs_write || kind_is kind OperationKind.fs_delete

abbrev pub is_reading : Operation → Bool
is_reading operation = operation.is_read_only || kind_is operation.kind OperationKind.fs_read

-- `_check_bash_protocol`
unfoldable pub check_bash_protocol : Operation → Bool → Option PermissionDecision
check_bash_protocol operation verifies = elim operation.bash_risk [
  | none ↦ none
  | some bash ↦
      when
        (verifies
          && (risk_is bash.risk BashRisk.file_write_via_bash
              || risk_is bash.risk BashRisk.file_delete_via_bash
              || bash.writes_files))
        (gate_decision PermissionBehavior.deny operation (some false)
          DecisionReason.bash_mixed_mutation_verification)
      <|> when bash.structured_tool (
          gate_decision PermissionBehavior.deny operation (some false)
            DecisionReason.bash_structured_tool_route)
]

module _ (around : Surroundings) where
  unfoldable pub classify_operation : ToolCall → Operation
  classify_operation tool =
      let operation = tool.operation in
      if kind_is operation.kind OperationKind.process_exec && operation.is_bash
      then classify_bash_operation operation (around.classify_bash (prefix_or operation.command []))
      else operation

  abbrev pub is_safe : Text → Bool
  is_safe path = not (is_none (around.safe_path path))

  -- A path that `safe_path` refuses has been denied before the tests on resolved paths.
  abbrev pub resolved_is : (Text → Bool) → Text → Bool
  resolved_is test path = elim (around.safe_path path) [ none ↦ false | some target ↦ test target ]

  abbrev pub references : (Text → List Text) → Option Text → Bool
  references find none = false
  references find (some command) = not (is_nil command) && not (is_nil (find command))

  -- `_check_access_policy`
  unfoldable pub check_access_policy : Operation → Option PermissionDecision
  check_access_policy operation =
      when
        (is_mutation operation.kind
          && references around.protected_write_references operation.command)
        (gate_decision PermissionBehavior.deny operation (some true)
          DecisionReason.access_policy_bash_write)
      <|> when (references around.protected_read_references operation.command) (
          gate_decision PermissionBehavior.deny operation (some false)
            DecisionReason.access_policy_bash_read)
      <|> when
          (kind_is operation.kind OperationKind.fs_read
            && any_of (resolved_is around.is_protected_resolved_read) operation.paths)
          (gate_decision PermissionBehavior.deny operation none DecisionReason.access_policy_read)
      <|> when
          (is_mutation operation.kind
            && any_of (resolved_is around.is_protected_resolved_write) operation.paths)
          (gate_decision PermissionBehavior.deny operation (some true) (
            if kind_is operation.kind OperationKind.fs_delete
            then DecisionReason.access_policy_delete
            else DecisionReason.access_policy_write))

  -- `_all_paths_created_in_current_task`
  unfoldable pub all_paths_created : Operation → Permissions → Bool
  all_paths_created operation s =
      not (is_nil operation.paths)
      && all_of
          (resolved_is (λ target. contains (around.relative_path target) s.task_created_files))
          operation.paths

-- What the mode decides once every check before it has passed.
unfoldable pub decide_accept_edits : Operation → Bool → Option PermissionDecision
decide_accept_edits operation owned =
    when (is_reading operation)
      (gate_decision PermissionBehavior.allow operation none DecisionReason.accept_edits_read)
    <|> when (kind_is operation.kind OperationKind.fs_delete) (
        if owned
        then gate_decision PermissionBehavior.allow operation none
            DecisionReason.accept_edits_owned_cleanup
        else gate_decision PermissionBehavior.ask operation none
            DecisionReason.accept_edits_delete_approval)
    <|> when (kind_is operation.kind OperationKind.fs_write && not operation.is_sensitive)
        (gate_decision PermissionBehavior.allow operation none DecisionReason.accept_edits_write)

unfoldable pub decide_read_only : Operation → Option PermissionDecision
decide_read_only operation =
    when (is_mutation operation.kind) (
      gate_decision PermissionBehavior.ask operation (some true)
        DecisionReason.read_only_escalation)
    <|> when (is_reading operation)
        (gate_decision PermissionBehavior.allow operation none DecisionReason.read_only_allow)

unfoldable pub decide_manual_approval : Operation → Option PermissionDecision
decide_manual_approval operation =
    when (is_mutation operation.kind || kind_is operation.kind OperationKind.process_exec)
      (gate_decision PermissionBehavior.ask operation none DecisionReason.manual_approval)
    <|> when (is_reading operation)
        (gate_decision PermissionBehavior.allow operation none DecisionReason.manual_read)

abbrev pub decide_mode : PermissionMode → Operation → Bool → Option PermissionDecision
decide_mode PermissionMode.accept_edits operation owned = decide_accept_edits operation owned
decide_mode PermissionMode.read_only operation owned = decide_read_only operation
decide_mode PermissionMode.manual_approval operation owned = decide_manual_approval operation

abbrev pub allows_unknown_bash : Permissions → Bool
allows_unknown_bash s =
    mode_is s.permission_mode PermissionMode.accept_edits && s.sandbox_allows_unknown_bash

-- `_check_bash_operation`, for a risk
unfoldable pub decide_risk : Operation → Permissions → BashRisk → Option PermissionDecision
decide_risk operation s BashRisk.destructive =
    some
      (gate_decision PermissionBehavior.deny operation (some true) DecisionReason.bash_destructive)
decide_risk operation s BashRisk.file_delete_via_bash = some (
    gate_decision PermissionBehavior.deny operation (some false)
      DecisionReason.bash_file_delete_route)
decide_risk operation s BashRisk.file_write_via_bash =
    some
      (gate_decision PermissionBehavior.ask operation (some false) DecisionReason.bash_file_write)
decide_risk operation s BashRisk.safe_check =
    when (mode_is s.permission_mode PermissionMode.accept_edits)
      (gate_decision PermissionBehavior.allow operation none DecisionReason.accept_edits_safe_check)
decide_risk operation s BashRisk.network =
    some (gate_decision PermissionBehavior.ask operation none DecisionReason.bash_network)
decide_risk operation s BashRisk.unknown = some (
    if allows_unknown_bash s
    then gate_decision PermissionBehavior.allow operation none DecisionReason.sandbox_auto_allow
    else gate_decision PermissionBehavior.ask operation none DecisionReason.bash_unknown)
decide_risk operation s BashRisk.read_only_command = none

abbrev pub check_bash_operation : Operation → Permissions → Option PermissionDecision
check_bash_operation operation s = elim operation.bash_risk [
  | none ↦ none
  | some bash ↦ decide_risk operation s bash.risk
]

-- The count of commands that the sandbox let pass.
abbrev pub counted : Option BashRiskDecision → Permissions → Permissions
counted none s = s
counted (some bash) s =
    if risk_is bash.risk BashRisk.unknown && allows_unknown_bash s
    then record s {
      sandbox_auto_allowed_unknown_bash_count = s.sandbox_auto_allowed_unknown_bash_count + 1;
    }
    else s

-- Of a tool's own decision, one that denies or asks.
abbrev pub restricting : Option PermissionDecision → Option PermissionDecision
restricting none = none
restricting (some decision) =
    when (not (behavior_is decision.behavior PermissionBehavior.allow)) decision

abbrev pub operation_or : Option Operation → Operation → Operation
operation_or none default = default
operation_or (some operation) default = operation

-- `_with_operation`
unfoldable pub with_operation : Operation → PermissionDecision → PermissionDecision
with_operation operation decision =
    if not (is_none decision.operation) && decision.described then decision else record decision {
      proposed_scope = or_text decision.proposed_scope operation.scope_key;
      described = true;
      operation = some (operation_or decision.operation operation);
      terminal_on_deny = decision.terminal_on_deny || operation.terminal_on_deny;
    }

abbrev pub check_tool : ToolCall → Operation → Option PermissionDecision
check_tool tool operation = elim (restricting (tool.check_permissions operation)) [
  | none ↦ none
  | some decision ↦ some (with_operation operation decision)
]

-- A rule of the store, as the gate asks for it.
abbrev pub has_match : RuleBehavior → ToolCall → Operation → Permissions → Bool
has_match behavior tool operation s =
    not (is_none (match_rule behavior tool.name operation.scope_key s.permission_rules))

abbrev pub is_denied_scope : Operation → Permissions → Bool
is_denied_scope operation s = elim operation.scope_key [
  | none ↦ false
  | some scope ↦ not (is_nil scope) && contains scope s.denied_permission_scopes
]

module _ (around : Surroundings) where
  -- The checks up to the rules that ask.
  unfoldable pub check_access : ToolCall → Operation → Permissions → Option PermissionDecision
  check_access tool operation s =
      check_bash_protocol operation tool.verifies
      <|> when (any_of (λ path. not (is_safe around path)) operation.paths) (
          gate_decision PermissionBehavior.deny operation
            (some (operation.is_destructive || kind_is operation.kind OperationKind.fs_delete))
            DecisionReason.path_escape)
      <|> when (is_denied_scope operation s) (
          gate_decision PermissionBehavior.deny operation none
            DecisionReason.previously_denied_scope)
      <|> check_access_policy around operation
      <|> when (has_match RuleBehavior.deny tool operation s)
          (gate_decision PermissionBehavior.deny operation none DecisionReason.deny_rule)
      <|> when (has_match RuleBehavior.ask tool operation s)
          (gate_decision PermissionBehavior.ask operation none DecisionReason.ask_rule)

  -- The decision once no check has refused or asked.
  unfoldable pub decide : ToolCall → Operation → Permissions → Option PermissionDecision
  decide tool operation s =
      decide_mode s.permission_mode operation (all_paths_created around operation s)
      <|> when (has_match RuleBehavior.allow tool operation s)
          (gate_decision PermissionBehavior.allow operation none DecisionReason.allow_rule)
      <|> when (is_reading operation)
          (gate_decision PermissionBehavior.allow operation none DecisionReason.fallback_read)
      <|> some (gate_decision PermissionBehavior.ask operation none DecisionReason.fallback_ask)

  abbrev pub or_asks : Option PermissionDecision → Operation → PermissionDecision
  or_asks none operation =
      gate_decision PermissionBehavior.ask operation none DecisionReason.fallback_ask
  or_asks (some decision) operation = decision

  abbrev pub check_operation : ToolCall → Operation → Permissions → PermissionDecision × Permissions
  check_operation tool operation s = elim (check_access tool operation s) [
    | some decision ↦ (decision, s)
    | none ↦ (
      or_asks
          (check_bash_operation operation s
            <|> check_tool tool operation
            <|> decide tool operation s)
          operation,
      counted operation.bash_risk s,
    )
  ]

  -- `check`, without the trace of the classification
  unfoldable pub check : ToolCall → Permissions → PermissionDecision × Permissions
  check tool s = check_operation tool (classify_operation around tool) s
