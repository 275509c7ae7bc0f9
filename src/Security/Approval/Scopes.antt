-- ===== src/Security/Approval/Scopes.antt =====
-- Permission requests and the answers to them (src/runtime/security/approval.py).
use local_coding_agent_harne.Prelude.{
  ◌≡◌, ◌≢◌, ◌⊎◌, subst, Bool, true, false, not, ◌&&◌, ◌||◌, any_of, Option, none, some, List, [],
  ◌∷◌, ◌++◌, Text, text_eq, text_eq_refl, text_eq_iff, contains, is_none, arith, Option-cases, inl,
  inr,
}
use local_coding_agent_harne.Security.Rules.{
  RuleBehavior, behavior_is, PermissionRule, option_eq, is_matched, match_rule, rule_eq, has_rule,
  add_rule,
}
use local_coding_agent_harne.Security.Models.{
  PermissionBehavior, PermissionDecision, DecisionReason, Permissions, create_decision,
}
use local_coding_agent_harne.Security.Approval.{
  decision_scope, scope_rule, decided, once_answers, scope_answers, allow_scope, truthy, ask_user,
  is_approved, resolve,
}

abbrev finds : RuleBehavior → Text → Option Text → List PermissionRule → Bool
finds behavior tool_name scope rules = not (is_none (match_rule behavior tool_name scope rules))

match_rule-append :
    (b : RuleBehavior) (n : Text) (o : Option Text) (rules : List PermissionRule)
    (r : PermissionRule)
    → finds b n o (rules ++ r ∷ []) ≡ (finds b n o rules || is_matched b n o r)
unfolding match_rule
match_rule-append b n o [] r = ground arith
match_rule-append b n o (x ∷ rules) r = ground (arith, match_rule-append b n o rules r)

-- The rule that approves a scope names its tool and has no content, so it matches every scope.
scope_rule-is_matched :
    (b : RuleBehavior) (n scope : Text) (o : Option Text)
    → is_matched b n o (scope_rule b n scope) ≡ true
unfolding is_matched
scope_rule-is_matched b n scope o = ground (arith, text_eq_refl n)

option_eq-sym :
    (n : Text) (o : Option Text) → option_eq (some n) o ≡ true → option_eq o (some n) ≡ true
option_eq-sym n none h = ground arith
option_eq-sym n (some t) h =
    subst (λ x. text_eq x n ≡ true) ((text_eq_iff n t).0 h) (text_eq_refl n)

rule_eq-is_matched :
    (b : RuleBehavior) (n scope : Text) (o : Option Text) (r : PermissionRule)
    → rule_eq (scope_rule b n scope) r ≡ true
    → is_matched b n o r ≡ true
unfolding rule_eq is_matched
rule_eq-is_matched b n scope o r h = ground (arith, option_eq-sym n r.value.tool_name)

has_rule-finds :
    (b : RuleBehavior) (n scope : Text) (o : Option Text) (rules : List PermissionRule)
    → has_rule (scope_rule b n scope) rules ≡ true
    → finds b n o rules ≡ true
unfolding has_rule match_rule
has_rule-finds b n scope o [] h = ground arith
has_rule-finds b n scope o (r ∷ rules) h =
    ground (arith, has_rule-finds b n scope o rules, rule_eq-is_matched b n scope o r)

add_rule-finds :
    (b : RuleBehavior) (n scope : Text) (o : Option Text) (rules : List PermissionRule)
    → finds b n o (add_rule (scope_rule b n scope) rules) ≡ true
unfolding add_rule
add_rule-finds b n scope o rules = ground (
  arith,
  match_rule-append b n o rules (scope_rule b n scope),
  scope_rule-is_matched b n scope o,
  has_rule-finds b n scope o rules,
)

-- Once the user has approved one scope of a tool for the run, every request of that tool that has
-- a scope is allowed, whichever scope it is, and nobody is asked.
pub resolve-allow_scope :
    (tool_name scope answer : Text) (decision : PermissionDecision) (s : Permissions)
    → decision.behavior ≡ PermissionBehavior.ask
    → truthy (decision_scope decision) ≢ none
    → resolve tool_name answer decision (allow_scope tool_name scope s) ≡ (
      decided PermissionBehavior.allow DecisionReason.approved_scope decision,
      allow_scope tool_name scope s,
    )
unfolding resolve allow_scope
resolve-allow_scope tool_name scope answer decision s h t =
    elim (Option-cases (truthy (decision_scope decision))) [
      | inl e ↦ absurd (t e)
      | inr (other, e) ↦
          ground (
            arith,
            add_rule-finds RuleBehavior.allow tool_name scope (some other) s.permission_rules,
          )
    ]

-- A rule of the store that allows a scope of a tool: it is for this scope, or it is for this tool
-- and restricted to no content or to this scope.
abbrev pub is_allowing : Text → Text → PermissionRule → Bool
is_allowing tool_name scope rule =
    behavior_is rule.behavior RuleBehavior.allow
    && (option_eq rule.value.operation_scope (some scope)
        || (option_eq rule.value.tool_name (some tool_name)
            && (is_none rule.value.rule_content || option_eq rule.value.rule_content (some scope))))

-- The request has a scope which is among the approved ones, or which a rule of the store allows.
pub record IsApproved (tool_name : Text) (decision : PermissionDecision) (s : Permissions)
    : Type 0 where
  pub scope : Text
  pub scoped : truthy (decision_scope decision) ≡ some scope
  pub approved :
      (contains scope s.approved_permission_scopes
        || any_of (is_allowing tool_name scope) s.permission_rules)
      ≡ true

finds-is_allowing :
    (tool_name scope : Text) (rules : List PermissionRule)
    → finds RuleBehavior.allow tool_name (some scope) rules ≡ true
    → any_of (is_allowing tool_name scope) rules ≡ true
unfolding match_rule is_matched
finds-is_allowing tool_name scope [] h = ground arith
finds-is_allowing tool_name scope (r ∷ rules) h =
    ground (arith, finds-is_allowing tool_name scope rules)

is_approved-IsApproved :
    (tool_name : Text) (decision : PermissionDecision) (s : Permissions)
    → is_approved tool_name (truthy (decision_scope decision)) s ≡ true
    → IsApproved tool_name decision s
is_approved-IsApproved tool_name decision s h =
    elim (Option-cases (truthy (decision_scope decision))) [
      | inl e ↦ absurd (ground arith)
      | inr (scope, e) ↦ record {
        scope = scope;
        scoped = e;
        approved = ground (arith, finds-is_allowing tool_name scope s.permission_rules);
      }
    ]

resolve-cases :
    (tool_name answer : Text) (decision : PermissionDecision) (s : Permissions)
    → (resolve tool_name answer decision s).0.behavior ≡ PermissionBehavior.allow
    → (decision.behavior ≡ PermissionBehavior.allow)
      ⊎ (is_approved tool_name (truthy (decision_scope decision)) s ≡ true)
      ⊎ ((s.prompt_policy_is_deny ≡ false)
          × ((contains answer once_answers || contains answer scope_answers) ≡ true))
unfolding resolve ask_user decided create_decision
resolve-cases tool_name answer decision s h = ground arith

-- A request that ends allowed was allowed by the gate; or its scope is among the approved ones or
-- allowed by a rule of the store, for this scope or for the tool; or the user was asked, under
-- another prompt policy than "deny", and answered yes.
pub resolve-allowed :
    (tool_name answer : Text) (decision : PermissionDecision) (s : Permissions)
    → (resolve tool_name answer decision s).0.behavior ≡ PermissionBehavior.allow
    → (decision.behavior ≡ PermissionBehavior.allow)
      ⊎ IsApproved tool_name decision s
      ⊎ ((s.prompt_policy_is_deny ≡ false)
          × ((contains answer once_answers || contains answer scope_answers) ≡ true))
resolve-allowed tool_name answer decision s h = elim (resolve-cases tool_name answer decision s h) [
  | inl allowed ↦ inl allowed
  | inr (inl approved) ↦ inr (inl (is_approved-IsApproved tool_name decision s approved))
  | inr (inr asked) ↦ inr (inr asked)
]

-- Under the prompt policy "deny" nobody is asked: no response is logged and no scope or rule is
-- added, and the request ends allowed or denied.
pub resolve-unattended :
    (tool_name answer : Text) (decision : PermissionDecision) (s : Permissions)
    → s.prompt_policy_is_deny ≡ true
    → ((resolve tool_name answer decision s).1 ≡ s)
      × ((resolve tool_name answer decision s).0.behavior ≢ PermissionBehavior.ask)
unfolding resolve decided create_decision
resolve-unattended tool_name answer decision s h = ground arith
