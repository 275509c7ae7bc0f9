-- ===== src/Samples/Plans.antt =====
-- The theorems on plans, on the states of the run.
use local_coding_agent_harne.Prelude.{
  ◌≡◌, ◌⊎◌, arith, refl, false, none, some, [], ◌∷◌, codes, err, strip, drop_spaces, text_eq,
  contains,
}
use local_coding_agent_harne.Plan.Models.{
  PlanPolicy, PlanApprovalPolicy, ExecutionPath, PlanPhase, PlanError, PlanFault, PlanState,
  from_value, lookup, insert, plan_step_fingerprint,
}
use local_coding_agent_harne.Plan.Validation.{initial, validate, as_validation, distinct}
use local_coding_agent_harne.Plan.Controller.{PlanCall, body, perform, record_transition}
use local_coding_agent_harne.Plan.Controller.Base.{required_text, optional_text}
use local_coding_agent_harne.Plan.Controller.Drafting.{
  replace_plan, submit_for_execution, from_values, is_retained, retain_step, retain_ledger, step_eq,
  steps_eq, with_plan,
}
use local_coding_agent_harne.Plan.Controller.Approval.{approve, cancel}
use local_coding_agent_harne.Plan.Controller.Progress.{
  update_step, change_step, find_target, find_step, set_status, with_status,
}
use local_coding_agent_harne.Plan.Capabilities.{plan_capabilities}
use local_coding_agent_harne.Plan.Gate
use local_coding_agent_harne.Plan.Safety.{IsAuthorized, side_effects-IsAuthorized, check-inspection}
use local_coding_agent_harne.Plan.Invariant.Calls.{IsValid, Reach-IsValid, perform-IsValid, discard}
use local_coding_agent_harne.Plan.Evidence.{IsBacked, replace_plan-IsBacked}
use local_coding_agent_harne.Plan.Transitions.{manual_start, request_replan-blank}
use local_coding_agent_harne.Plan.Authorized.{Visits}
use local_coding_agent_harne.Samples.Runs.{
  begin, env, env-IsDigest, step_input, write, written, submitted, working, written-Reach,
  submitted-Reach, working-Reach, valid,
}

working-Visits : Visits env working
working-Visits = Visits.next begin (
    Visits.next PlanCall.approve (
      Visits.next PlanCall.submit_for_execution (
        Visits.next write
          (Visits.start PlanPolicy.required PlanApprovalPolicy.manual (codes "goal")))))

side_effects-IsAuthorized_example :
    (working.execution_path ≡ ExecutionPath.direct) ⊎ IsAuthorized working
unfolding plan_capabilities perform body record_transition replace_plan from_values from_value
    retain_step is_retained retain_ledger step_eq steps_eq with_plan validate as_validation initial
    strip drop_spaces text_eq contains lookup insert optional_text plan_step_fingerprint distinct
    submit_for_execution approve update_step change_step find_target find_step set_status
    with_status required_text
side_effects-IsAuthorized_example = side_effects-IsAuthorized env working false working-Visits refl

Reach-IsValid_example : IsValid env working
Reach-IsValid_example = Reach-IsValid env env-IsDigest working-Reach

perform-IsValid_example :
    ((perform env PlanCall.approve submitted).0 ≡ discard (body env PlanCall.approve submitted).0)
    × (IsValid env (perform env PlanCall.approve submitted).1
        ⊎ ((e : PlanError) × ((perform env PlanCall.approve submitted).0 ≡ err e)))
perform-IsValid_example =
    perform-IsValid env PlanCall.approve submitted env-IsDigest (valid submitted-Reach)

replace_plan-IsBacked_example :
    IsBacked env written.completion_ledger (perform env write written).1.steps
replace_plan-IsBacked_example =
    replace_plan-IsBacked env written (step_input ∷ []) none (valid written-Reach)

check-inspection_example :
    (b : Gate.PlanBlock) × (Gate.check (some submitted) false (codes "bash") ≡ some b)
    × (b.tool ≡ codes "bash")
unfolding plan_capabilities perform body record_transition replace_plan from_values from_value
    retain_step is_retained retain_ledger step_eq steps_eq with_plan validate as_validation initial
    strip drop_spaces text_eq contains lookup insert optional_text plan_step_fingerprint distinct
    submit_for_execution approve update_step change_step find_target find_step set_status
    with_status required_text
check-inspection_example = check-inspection submitted false (codes "bash") refl refl

abbrev cancelled_plan : PlanState
cancelled_plan = (perform env (PlanCall.cancel none) working).1

manual_start_example :
    (PlanCall.approve ≡ PlanCall.approve) × (submitted.phase ≡ PlanPhase.awaiting_approval)
unfolding perform body record_transition replace_plan from_values from_value retain_step is_retained
    retain_ledger step_eq steps_eq with_plan validate as_validation initial strip drop_spaces
    text_eq contains lookup insert optional_text plan_step_fingerprint distinct submit_for_execution
    approve update_step change_step find_target find_step set_status with_status required_text
manual_start_example =
    manual_start env PlanCall.approve submitted refl (λ e. absurd (ground arith)) refl

request_replan-blank_example :
    ((perform env (PlanCall.request_replan (codes " ")) working).0
      ≡ err (PlanError.validation PlanFault.empty_text))
    × (validate env (perform env (PlanCall.request_replan (codes " ")) working).1
        ≡ err (PlanError.validation PlanFault.planning_with_step_in_progress))
unfolding perform body record_transition replace_plan from_values from_value retain_step is_retained
    retain_ledger step_eq steps_eq with_plan validate as_validation initial strip drop_spaces
    text_eq contains lookup insert optional_text plan_step_fingerprint distinct submit_for_execution
    approve update_step change_step find_target find_step set_status with_status required_text
request_replan-blank_example =
    request_replan-blank env working (codes " ") (valid working-Reach) refl refl refl
