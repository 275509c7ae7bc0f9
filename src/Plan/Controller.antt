-- ===== src/Plan/Controller.antt =====
-- src/runtime/plan/controller.py: what each method of PlanController does to the plan state.
-- A method ends with a call of `_record`, which its body only names by the action: `perform` is
-- the method of a controller with no listener, and the session's methods add the listener.
pub mod Base
pub mod Selection
pub mod Drafting
pub mod Approval
pub mod Progress
use local_coding_agent_harne.Prelude.{
  ℕ, ◌+◌, Bool, true, false, not, ◌&&◌, ◌||◌, Option, none, some, List, [], ◌∷◌, map, Text, strip,
  text_eq, length, take, is_nil, ltb, if◌then◌else◌, Outcome, ok, err, any_of, all_of, Exec, pure,
  lift, gets, modify, require, ◌>>=◌, ◌>>◌,
}
use local_coding_agent_harne.Plan.Models.{
  PlanPolicy, PlanApprovalPolicy, ExecutionPath, PlanPhase, PlanStepStatus, ApprovalSource,
  PlanFault, PlanRefusal, PlanError, phase_is, policy_is, path_is, status_is, Env,
  plan_step_fingerprint, StepInput, from_value, PlanStep, Ledger, lookup, insert, PlanState,
}
use local_coding_agent_harne.Plan.Validation.{
  is_in_progress, is_completed, ids, distinct, option_text_is, version_is, validate, initial,
}
use Base.{
  Method, Body, invalid, refused, self, require_phase, require_authorized_execution, required_text,
  none_if_empty, optional_text, back_to_planning, PlanAction,
}

-- One call of a method. `reset` and `record_initial_state`, which no tool calls, stand apart.
pub data PlanCall : Type 0 where
  select_execution_path : Option ExecutionPath → Text → Bool → PlanCall
  force_plan : Text → Bool → PlanCall
  replace_plan : List StepInput → Option Text → PlanCall
  submit_for_execution approve complete : PlanCall
  revise request_replan : Text → PlanCall
  update_step : Text → Option PlanStepStatus → PlanCall
  cancel : Option Text → PlanCall

module _ (env : Env) where
  unfoldable pub body : PlanCall → Body
  body (PlanCall.select_execution_path mode reason mutated) =
      Selection.select_execution_path mode reason mutated
  body (PlanCall.force_plan reason mutated) = Selection.force_plan reason mutated
  body (PlanCall.replace_plan steps explanation) = Drafting.replace_plan env steps explanation
  body PlanCall.submit_for_execution = Drafting.submit_for_execution
  body PlanCall.approve = Approval.approve
  body PlanCall.complete = Progress.complete
  body (PlanCall.revise feedback) = Approval.revise feedback
  body (PlanCall.request_replan reason) = Progress.request_replan reason
  body (PlanCall.update_step step_id status) = Progress.update_step env step_id status
  body (PlanCall.cancel reason) = Approval.cancel reason

  abbrev pub touch : PlanState → PlanState
  touch s = record s { updated_at = env.utc_now }

  -- `_record` with no listener, store or trace: the clock, then the validation.
  unfoldable pub record_transition : PlanAction → Method (Unit {0})
  record_transition action s = (validate env (touch s), touch s)

  abbrev pub after_body : Option PlanAction → Method (Unit {0})
  after_body none = pure tt
  after_body (some action) = record_transition action

  unfoldable pub perform : PlanCall → Method (Unit {0})
  perform call = do action ← body call; after_body action

  -- `record_initial_state`, with which the session's factory records a controller's first state
  unfoldable pub record_initial_state : Method (Unit {0})
  record_initial_state s = elim (validate env s) [
    | err e ↦ (err e, s)
    | ok u ↦
        if policy_is s.policy PlanPolicy.off
        then (ok tt, s)
        else record_transition PlanAction.initialized s
  ]
