-- ===== src/Samples/Runs.antt =====
-- A run of a controller under manual approval: a plan of one step is written, submitted, approved
-- and begun.
use local_coding_agent_harne.Prelude.{
  refl, none, some, [], ◌∷◌, codes, strip, drop_spaces, text_eq, contains,
}
use local_coding_agent_harne.Plan.Models.{
  PlanPolicy, PlanApprovalPolicy, PlanStepStatus, Env, StepInput, PlanState, from_value, lookup,
  insert, plan_step_fingerprint,
}
use local_coding_agent_harne.Plan.Validation.{initial, validate, as_validation, distinct}
use local_coding_agent_harne.Plan.Controller.{PlanCall, body, perform, record_transition}
use local_coding_agent_harne.Plan.Controller.Base.{required_text, optional_text}
use local_coding_agent_harne.Plan.Controller.Drafting.{
  replace_plan, submit_for_execution, from_values, is_retained, retain_step, retain_ledger, step_eq,
  steps_eq, with_plan,
}
use local_coding_agent_harne.Plan.Controller.Approval.{approve}
use local_coding_agent_harne.Plan.Controller.Progress.{
  update_step, change_step, find_target, find_step, set_status, with_status,
}
use local_coding_agent_harne.Plan.Invariant.Methods.{IsDigest}
use local_coding_agent_harne.Plan.Invariant.Calls.{Reach, IsValid, Reach-IsValid}

-- Every digest is the same; the clock stands.
abbrev pub env : Env
env = record {
  sha256_hex = λ t. codes "aaaaaaaaaaaaaaaaaaaaaaaaaaaaaaaaaaaaaaaaaaaaaaaaaaaaaaaaaaaaaaaa";
  utc_now = [];
}

pub env-IsDigest : IsDigest env
env-IsDigest t = refl

abbrev pub step_input : StepInput
step_input = StepInput.fields (codes "a") (codes "do it") (some PlanStepStatus.pending)

abbrev pub started : PlanState
started = initial env PlanPolicy.required PlanApprovalPolicy.manual (codes "goal")

abbrev pub write : PlanCall
write = PlanCall.replace_plan (step_input ∷ []) none

abbrev pub begin : PlanCall
begin = PlanCall.update_step (codes "a") (some PlanStepStatus.in_progress)

abbrev pub written : PlanState
written = (perform env write started).1

abbrev pub submitted : PlanState
submitted = (perform env PlanCall.submit_for_execution written).1

abbrev pub approved : PlanState
approved = (perform env PlanCall.approve submitted).1

abbrev pub working : PlanState
working = (perform env begin approved).1

pub started-Reach : Reach env started
started-Reach = Reach.start PlanPolicy.required PlanApprovalPolicy.manual (codes "goal")

pub written-Reach : Reach env written
unfolding perform body record_transition replace_plan from_values from_value retain_step is_retained
    retain_ledger step_eq steps_eq with_plan validate as_validation initial strip drop_spaces
    text_eq contains lookup insert optional_text plan_step_fingerprint distinct
written-Reach = Reach.next write started-Reach refl

pub submitted-Reach : Reach env submitted
unfolding perform body record_transition replace_plan from_values from_value retain_step is_retained
    retain_ledger step_eq steps_eq with_plan validate as_validation initial strip drop_spaces
    text_eq contains lookup insert optional_text plan_step_fingerprint distinct submit_for_execution
submitted-Reach = Reach.next PlanCall.submit_for_execution written-Reach refl

pub approved-Reach : Reach env approved
unfolding perform body record_transition replace_plan from_values from_value retain_step is_retained
    retain_ledger step_eq steps_eq with_plan validate as_validation initial strip drop_spaces
    text_eq contains lookup insert optional_text plan_step_fingerprint distinct submit_for_execution
    approve
approved-Reach = Reach.next PlanCall.approve submitted-Reach refl

pub working-Reach : Reach env working
unfolding perform body record_transition replace_plan from_values from_value retain_step is_retained
    retain_ledger step_eq steps_eq with_plan validate as_validation initial strip drop_spaces
    text_eq contains lookup insert optional_text plan_step_fingerprint distinct submit_for_execution
    approve update_step change_step find_target find_step set_status with_status required_text
working-Reach = Reach.next begin approved-Reach refl

pub valid : {s : PlanState} → Reach env s → IsValid env s
valid r = Reach-IsValid env env-IsDigest r
