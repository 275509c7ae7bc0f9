-- ===== src/Security/Approval.antt =====
-- src/runtime/security/approval.py: PermissionApproval.
pub mod Scopes
use local_coding_agent_harne.Prelude.{
  Bool, true, false, not, ◌&&◌, ◌||◌, Option, none, some, List, [], ◌∷◌, ◌++◌, map, Text, codes,
  strip, contains, is_nil, is_none, if◌then◌else◌,
}
use local_coding_agent_harne.Session.Files.{add}
use local_coding_agent_harne.Security.Rules.{
  RuleBehavior, RuleSource, PermissionRule, match_rule, add_rule,
}
use local_coding_agent_harne.Security.Models.{
  PermissionBehavior, behavior_is, PermissionDecision, DecisionReason, PermissionEvent, Permissions,
  operation_scope, or_text, create_decision,
}

unfoldable pub decision_scope : PermissionDecision → Option Text
decision_scope decision = or_text decision.proposed_scope (operation_scope decision.operation)

-- The rule that an answer adds for a tool and a scope.
abbrev pub scope_rule : RuleBehavior → Text → Text → PermissionRule
scope_rule behavior tool_name scope = record {
  source = RuleSource.session;
  behavior = behavior;
  value = record { tool_name = some tool_name; rule_content = none; operation_scope = some scope };
}

-- The decision that takes the place of one that asks.
unfoldable pub decided :
    PermissionBehavior → DecisionReason → PermissionDecision → PermissionDecision
decided behavior reason decision =
    create_decision behavior decision.operation (decision_scope decision) decision.described
      (some decision.terminal_on_deny) reason

-- The sets of answers, in lower case as the answer is; the answer at the end of the input is "".
abbrev pub once_answers : List Text
once_answers = map codes ("y" ∷ "yes" ∷ "once" ∷ [])

abbrev pub scope_answers : List Text
scope_answers = map codes ("a" ∷ "all" ∷ "run" ∷ [])

abbrev pub log_response : Text → Permissions → Permissions
log_response response s = record s {
  trace = s.trace ++ PermissionEvent.permission_user_response response ∷ [];
}

unfoldable pub allow_scope : Text → Text → Permissions → Permissions
allow_scope tool_name scope s = record s {
  approved_permission_scopes = add scope s.approved_permission_scopes;
  permission_rules = add_rule (scope_rule RuleBehavior.allow tool_name scope) s.permission_rules;
  trace =
      s.trace
      ++ PermissionEvent.permission_user_response (codes "allow_scope")
        ∷ PermissionEvent.permission_scope_approved scope
        ∷ [];
}

unfoldable pub deny_scope : Text → Text → Permissions → Permissions
deny_scope tool_name scope s = record s {
  denied_permission_scopes = add scope s.denied_permission_scopes;
  permission_rules = add_rule (scope_rule RuleBehavior.deny tool_name scope) s.permission_rules;
  trace = s.trace ++ PermissionEvent.permission_scope_denied scope ∷ [];
}

-- The scope, if there is one that is not empty.
abbrev pub truthy : Option Text → Option Text
truthy scope = or_text scope none

abbrev pub answer_deny : Text → PermissionDecision → Option Text → Permissions → Permissions
answer_deny tool_name decision none s = s
answer_deny tool_name decision (some scope) s =
    if decision.terminal_on_deny then deny_scope tool_name scope s else s

abbrev pub refuse :
    Text → PermissionDecision → Option Text → Permissions → PermissionDecision × Permissions
refuse tool_name decision scope s = (
  decided PermissionBehavior.deny DecisionReason.user_deny decision,
  log_response (codes "deny") (answer_deny tool_name decision scope s),
)

abbrev pub allow_scope_or_refuse :
    Text → PermissionDecision → Option Text → Text → Permissions → PermissionDecision × Permissions
allow_scope_or_refuse tool_name decision none answer s = refuse tool_name decision none s
allow_scope_or_refuse tool_name decision (some scope) answer s =
    if contains answer scope_answers
    then (
      decided PermissionBehavior.allow DecisionReason.user_allow_scope decision,
      allow_scope tool_name scope s,
    )
    else refuse tool_name decision (some scope) s

-- `_ask_user`, given the answer, stripped and in lower case.
unfoldable pub ask_user :
    Text → Text → PermissionDecision → Permissions → PermissionDecision × Permissions
ask_user tool_name answer decision s =
    if contains answer once_answers
    then (
      decided PermissionBehavior.allow DecisionReason.user_allow_once decision,
      log_response (codes "allow_once") s,
    )
    else allow_scope_or_refuse tool_name decision (truthy (decision_scope decision)) answer s

abbrev pub is_approved : Text → Option Text → Permissions → Bool
is_approved tool_name none s = false
is_approved tool_name (some scope) s =
    contains scope s.approved_permission_scopes
    || not (is_none (match_rule RuleBehavior.allow tool_name (some scope) s.permission_rules))

unfoldable pub resolve :
    Text → Text → PermissionDecision → Permissions → PermissionDecision × Permissions
resolve tool_name answer decision s =
    if not (behavior_is decision.behavior PermissionBehavior.ask)
    then (decision, s)
    else if is_approved tool_name (truthy (decision_scope decision)) s
    then (decided PermissionBehavior.allow DecisionReason.approved_scope decision, s)
    else if s.prompt_policy_is_deny
    then (decided PermissionBehavior.deny DecisionReason.non_interactive_unapproved decision, s)
    else ask_user tool_name answer decision s
