-- ===== src/Security/Rules.antt =====
-- src/runtime/security/permission_rules.py: PermissionRuleStore.
use local_coding_agent_harne.Prelude.{
  Bool, true, false, not, ◌&&◌, ◌||◌, Option, none, some, List, [], ◌∷◌, ◌++◌, Text, text_eq,
  is_nil, is_none, if◌then◌else◌,
}

pub data RuleBehavior : Type 0 where
  allow deny ask : RuleBehavior

abbrev pub behavior_is : RuleBehavior → RuleBehavior → Bool
behavior_is RuleBehavior.allow RuleBehavior.allow = true
behavior_is RuleBehavior.deny RuleBehavior.deny = true
behavior_is RuleBehavior.ask RuleBehavior.ask = true
behavior_is _ _ = false

pub data RuleSource : Type 0 where
  session project user policy : RuleSource

abbrev pub source_is : RuleSource → RuleSource → Bool
source_is RuleSource.session RuleSource.session = true
source_is RuleSource.project RuleSource.project = true
source_is RuleSource.user RuleSource.user = true
source_is RuleSource.policy RuleSource.policy = true
source_is _ _ = false

pub record PermissionRuleValue : Type 0 where
  pub tool_name : Option Text
  pub rule_content : Option Text
  pub operation_scope : Option Text

pub record PermissionRule : Type 0 where
  pub source : RuleSource
  pub behavior : RuleBehavior
  pub value : PermissionRuleValue

-- `a == b` of optional texts
abbrev pub option_eq : Option Text → Option Text → Bool
option_eq none none = true
option_eq (some a) (some b) = text_eq a b
option_eq _ _ = false

-- `a and b and a == b` of optional texts: both are there, not empty, and the same.
abbrev pub both_eq : Option Text → Option Text → Bool
both_eq (some a) (some b) = not (is_nil a) && not (is_nil b) && text_eq a b
both_eq _ _ = false

abbrev pub names_tool : PermissionRuleValue → Text → Bool
names_tool value tool_name = option_eq value.tool_name (some tool_name)

-- Whether the loop of `match` returns at this rule.
unfoldable pub is_matched : RuleBehavior → Text → Option Text → PermissionRule → Bool
is_matched behavior tool_name operation_scope rule =
    behavior_is rule.behavior behavior
    && (both_eq rule.value.operation_scope operation_scope
        || (names_tool rule.value tool_name && is_none rule.value.rule_content)
        || (names_tool rule.value tool_name && both_eq rule.value.rule_content operation_scope))

unfoldable pub match_rule :
    RuleBehavior → Text → Option Text → List PermissionRule → Option PermissionRule
match_rule behavior tool_name operation_scope [] = none
match_rule behavior tool_name operation_scope (rule ∷ rules) =
    if is_matched behavior tool_name operation_scope rule
    then some rule
    else match_rule behavior tool_name operation_scope rules

unfoldable pub rule_eq : PermissionRule → PermissionRule → Bool
rule_eq a b =
    source_is a.source b.source
    && behavior_is a.behavior b.behavior
    && option_eq a.value.tool_name b.value.tool_name
    && option_eq a.value.rule_content b.value.rule_content
    && option_eq a.value.operation_scope b.value.operation_scope

unfoldable pub has_rule : PermissionRule → List PermissionRule → Bool
has_rule rule [] = false
has_rule rule (r ∷ rules) = rule_eq rule r || has_rule rule rules

unfoldable pub add_rule : PermissionRule → List PermissionRule → List PermissionRule
add_rule rule rules = if has_rule rule rules then rules else rules ++ rule ∷ []
