-- ===== src/Plan/Controller/Drafting.antt =====
-- src/runtime/plan/controller.py: replace_plan and submit_for_execution.
use local_coding_agent_harne.Prelude.{
  ◌+◌, Bool, true, false, not, ◌&&◌, Option, none, some, List, [], ◌∷◌, map, Text, text_eq, length,
  is_nil, ltb, if◌then◌else◌, Outcome, ok, err, pure, lift, modify, require, require_all, ◌>>=◌,
  ◌>>◌,
}
use local_coding_agent_harne.Plan.Models.{
  PlanApprovalPolicy, PlanPhase, PlanStepStatus, ApprovalSource, PlanFault, PlanError, status_is,
  Env, plan_step_fingerprint, StepInput, from_value, PlanStep, Ledger, lookup, insert, PlanState,
}
use local_coding_agent_harne.Plan.Validation.{ids, distinct, option_text_is}
use local_coding_agent_harne.Plan.Controller.Base.{
  Body, invalid, self, require_phase, optional_text, PlanAction,
}

-- `[PlanStep.from_value(step) for step in steps]`: the first refusal ends it.
unfoldable pub from_values : List StepInput → Outcome PlanError (List PlanStep)
from_values [] = ok []
from_values (value ∷ values) = elim (from_value value) [
  | err e ↦ err e
  | ok step ↦ elim (from_values values) [ err e ↦ err e | ok steps ↦ ok (step ∷ steps) ]
]

-- A step keeps its completion exactly if the ledger holds its fingerprint.
unfoldable pub is_retained : Env → Ledger → PlanStep → Bool
is_retained env old step =
    option_text_is (lookup step.id old) (plan_step_fingerprint env step.id step.description)

unfoldable pub retain_step : Env → Ledger → PlanStep → PlanStep
retain_step env old step = record step {
  status = if is_retained env old step then PlanStepStatus.completed else PlanStepStatus.pending;
}

unfoldable pub retain_ledger : Env → Ledger → List PlanStep → Ledger → Ledger
retain_ledger env old [] acc = acc
retain_ledger env old (step ∷ steps) acc = retain_ledger env old steps (
    if is_retained env old step
    then insert step.id (plan_step_fingerprint env step.id step.description) acc
    else acc)

unfoldable pub step_eq : PlanStep → PlanStep → Bool
step_eq a b =
    text_eq a.id b.id && text_eq a.description b.description && status_is a.status b.status

unfoldable pub steps_eq : List PlanStep → List PlanStep → Bool
steps_eq [] [] = true
steps_eq (a ∷ as') (b ∷ bs) = step_eq a b && steps_eq as' bs
steps_eq _ _ = false

abbrev pub option_text_eq : Option Text → Option Text → Bool
option_text_eq none none = true
option_text_eq (some a) (some b) = text_eq a b
option_text_eq _ _ = false

-- The state that `replace_plan` writes.
unfoldable pub with_plan : List PlanStep → Ledger → Option Text → PlanState → PlanState
with_plan steps ledger explanation s = record s {
  steps = steps;
  completion_ledger = ledger;
  explanation = explanation;
  version = s.version + 1;
  approved_version = none;
  approval_source = none;
}

unfoldable pub replace_plan : Env → List StepInput → Option Text → Body
replace_plan env inputs explanation = do
  require_phase PlanPhase.planning
  normalized ← lift (from_values inputs)
  require_all (
      (not (is_nil normalized), invalid PlanFault.empty_plan)
      ∷ (not (ltb 100 (length normalized)), invalid PlanFault.plan_too_long)
      ∷ (distinct (ids normalized), invalid PlanFault.duplicate_step_ids)
      ∷ [])
  s ← self
  let steps' = map (retain_step env s.completion_ledger) normalized
  let ledger' = retain_ledger env s.completion_ledger normalized []
  let explanation' = optional_text explanation
  if steps_eq s.steps steps' && option_text_eq s.explanation explanation'
      then pure none
      else (modify (with_plan steps' ledger' explanation') >> pure (some PlanAction.plan_replaced))

unfoldable pub submit_for_execution : Body
submit_for_execution = do
  require_phase PlanPhase.planning
  s ← self
  require (not (is_nil s.steps)) (invalid PlanFault.empty_plan)
  require (ltb 0 s.version) (invalid PlanFault.not_created)
  elim s.approval_policy [
    | PlanApprovalPolicy.auto ↦
        modify (λ s. record s {
          approved_version = some s.version;
          approval_source = some ApprovalSource.auto_policy;
          phase = PlanPhase.executing;
        })
        >> pure (some PlanAction.plan_auto_authorized)
    | PlanApprovalPolicy.manual ↦
        modify (λ s. record s {
          approved_version = none;
          approval_source = none;
          phase = PlanPhase.awaiting_approval;
        })
        >> pure (some PlanAction.plan_submitted)
  ]
