-- ===== src/Security/Models.antt =====
-- src/runtime/operation.py and src/runtime/security/permission_models.py, with
-- `create_decision` of src/runtime/security/approval.py.
use local_coding_agent_harne.Prelude.{
  ℕ, Bool, true, false, not, ◌||◌, Option, none, some, List, [], ◌∷◌, Text, is_none,
}
use local_coding_agent_harne.Security.Rules.{PermissionRule}

-- The kinds that the gate tells apart; every other kind is `other`.
pub data OperationKind : Type 0 where
  fs_read fs_write fs_delete process_exec other : OperationKind

abbrev pub kind_is : OperationKind → OperationKind → Bool
kind_is OperationKind.fs_read OperationKind.fs_read = true
kind_is OperationKind.fs_write OperationKind.fs_write = true
kind_is OperationKind.fs_delete OperationKind.fs_delete = true
kind_is OperationKind.process_exec OperationKind.process_exec = true
kind_is OperationKind.other OperationKind.other = true
kind_is _ _ = false

pub data PermissionMode : Type 0 where
  read_only accept_edits manual_approval : PermissionMode

abbrev pub mode_is : PermissionMode → PermissionMode → Bool
mode_is PermissionMode.read_only PermissionMode.read_only = true
mode_is PermissionMode.accept_edits PermissionMode.accept_edits = true
mode_is PermissionMode.manual_approval PermissionMode.manual_approval = true
mode_is _ _ = false

pub data PermissionBehavior : Type 0 where
  allow ask deny : PermissionBehavior

abbrev pub behavior_is : PermissionBehavior → PermissionBehavior → Bool
behavior_is PermissionBehavior.allow PermissionBehavior.allow = true
behavior_is PermissionBehavior.ask PermissionBehavior.ask = true
behavior_is PermissionBehavior.deny PermissionBehavior.deny = true
behavior_is _ _ = false

pub data BashRisk : Type 0 where
  safe_check read_only_command file_write_via_bash file_delete_via_bash : BashRisk
  destructive network unknown : BashRisk

abbrev pub risk_is : BashRisk → BashRisk → Bool
risk_is BashRisk.safe_check BashRisk.safe_check = true
risk_is BashRisk.read_only_command BashRisk.read_only_command = true
risk_is BashRisk.file_write_via_bash BashRisk.file_write_via_bash = true
risk_is BashRisk.file_delete_via_bash BashRisk.file_delete_via_bash = true
risk_is BashRisk.destructive BashRisk.destructive = true
risk_is BashRisk.network BashRisk.network = true
risk_is BashRisk.unknown BashRisk.unknown = true
risk_is _ _ = false

-- What the gate reads of a BashRiskDecision: of the effects whether "file_write" is one, of the
-- route whether it is "structured_tool".
pub record BashRiskDecision : Type 0 where
  pub risk : BashRisk
  pub target_paths : List Text
  pub command_prefix : Option Text
  pub writes_files : Bool
  pub structured_tool : Bool
  pub network_hosts : List Text

-- The metadata's "bash_risk" is the field `bash_risk`.
pub record Operation : Type 0 where
  pub kind : OperationKind
  pub is_bash : Bool
  pub subject : Text
  pub paths : List Text
  pub command : Option Text
  pub scope_key : Option Text
  pub terminal_on_deny : Bool
  pub is_read_only : Bool
  pub is_destructive : Bool
  pub is_sensitive : Bool
  pub bash_risk : Option BashRiskDecision

pub data DecisionReason : Type 0 where
  path_escape previously_denied_scope deny_rule ask_rule allow_rule : DecisionReason
  accept_edits_read accept_edits_owned_cleanup accept_edits_delete_approval : DecisionReason
  accept_edits_write read_only_escalation read_only_allow manual_approval : DecisionReason
  manual_read fallback_read fallback_ask : DecisionReason
  access_policy_bash_write access_policy_bash_read access_policy_read : DecisionReason
  access_policy_write access_policy_delete : DecisionReason
  bash_mixed_mutation_verification bash_structured_tool_route bash_destructive : DecisionReason
  bash_file_delete_route bash_file_write accept_edits_safe_check bash_network : DecisionReason
  sandbox_auto_allow bash_unknown : DecisionReason
  approved_scope non_interactive_unapproved user_allow_once user_allow_scope user_deny :
      DecisionReason

-- Of a decision, all but its risk and message. Of its metadata, whether it has an "operation".
pub record PermissionDecision : Type 0 where
  pub behavior : PermissionBehavior
  pub proposed_scope : Option Text
  pub described : Bool
  pub operation : Option Operation
  pub terminal_on_deny : Bool
  pub decision_reason : Option DecisionReason

-- `a or b` of optional texts
abbrev pub or_text : Option Text → Option Text → Option Text
or_text none b = b
or_text (some []) b = b
or_text (some (c ∷ t)) b = some (c ∷ t)

abbrev pub operation_scope : Option Operation → Option Text
operation_scope none = none
operation_scope (some operation) = operation.scope_key

abbrev pub operation_terminal : Option Operation → Bool
operation_terminal none = false
operation_terminal (some operation) = operation.terminal_on_deny

abbrev pub terminal_or : Option Bool → Option Operation → Bool
terminal_or none operation = operation_terminal operation
terminal_or (some terminal) operation = terminal

unfoldable pub create_decision :
    PermissionBehavior
    → Option Operation
    → Option Text
    → Bool
    → Option Bool
    → DecisionReason
    → PermissionDecision
create_decision behavior operation proposed_scope described terminal_on_deny reason = record {
  behavior = behavior;
  proposed_scope = or_text proposed_scope (operation_scope operation);
  described = described || not (is_none operation);
  operation = operation;
  terminal_on_deny = terminal_or terminal_on_deny operation;
  decision_reason = some reason;
}

pub data PermissionEvent : Type 0 where
  permission_user_response : Text → PermissionEvent
  permission_scope_approved permission_scope_denied : Text → PermissionEvent

-- What the permissions read and write of a session.
pub record Permissions : Type 0 where
  pub permission_mode : PermissionMode
  pub permission_rules : List PermissionRule
  pub approved_permission_scopes : List Text
  pub denied_permission_scopes : List Text
  pub task_created_files : List Text
  pub prompt_policy_is_deny : Bool
  pub sandbox_allows_unknown_bash : Bool
  pub sandbox_auto_allowed_unknown_bash_count : ℕ
  pub trace : List PermissionEvent
