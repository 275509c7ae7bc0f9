-- ===== src/Plan/Authorized.antt =====
-- Who may execute a plan (src/runtime/plan/controller.py), whether its methods return or raise.
use local_coding_agent_harne.Prelude.{
  ◌≡◌, Bool, true, not, ◌&&◌, ◌||◌, Option, none, some, List, Text, arith, Outcome-cases, inl, inr,
}
use local_coding_agent_harne.Plan.Models.{
  PlanPolicy, PlanApprovalPolicy, ExecutionPath, PlanPhase, PlanStep, PlanStepStatus, StepInput,
  phase_is, path_is, policy_is, Env, PlanState,
}
use local_coding_agent_harne.Plan.Validation.{
  initial, version_is, source_is, expected_source, is_manual,
}
use local_coding_agent_harne.Plan.Controller.{
  PlanCall, body, perform, record_transition, record_initial_state,
}
use local_coding_agent_harne.Plan.Controller.Base.{required_text}
use local_coding_agent_harne.Plan.Controller.Selection.{
  select_execution_path, force_plan, forced, without_plan, with_selection,
}
use local_coding_agent_harne.Plan.Controller.Drafting.{
  replace_plan, submit_for_execution, with_plan,
}
use local_coding_agent_harne.Plan.Controller.Approval.{approve, revise, cancel}
use local_coding_agent_harne.Plan.Controller.Progress.{
  update_step, request_replan, complete, change_step, with_status, find_target,
}

-- The states of a controller after any calls, those that raised included.
pub data Visits (env : Env) : PlanState → Type 0 where
  start :
      (policy : PlanPolicy) (approval : PlanApprovalPolicy) (goal : Text)
      → Visits env (initial env policy approval goal)
  recorded : {s : PlanState} → Visits env s → Visits env (record_initial_state env s).1
  next : {s : PlanState} (call : PlanCall) → Visits env s → Visits env (perform env call s).1

-- Of the validation, what raising calls keep: a plan in execution is authorized, one that awaits
-- its approval is under manual approval, and the off policy is on the direct path.
abbrev pub is_guarded : PlanState → Bool
is_guarded s =
    (not (phase_is s.phase PlanPhase.executing)
      || (version_is s.approved_version s.version
          && source_is s.approval_source (expected_source s.approval_policy)))
    && (not (phase_is s.phase PlanPhase.awaiting_approval) || is_manual s.approval_policy)
    && (not (policy_is s.policy PlanPolicy.off) || path_is s.execution_path ExecutionPath.direct)

module _ (env : Env) (s : PlanState) (g : is_guarded s ≡ true) where
  select-guarded :
      (m : Option ExecutionPath) (r : Text) (b : Bool)
      → is_guarded (select_execution_path m r b s).1 ≡ true
  unfolding select_execution_path with_selection
  select-guarded none r b = g
  select-guarded (some m) r b = ground arith

  force-guarded : (r : Text) (b : Bool) → is_guarded (force_plan r b s).1 ≡ true
  unfolding force_plan forced without_plan
  force-guarded r b = ground arith

  replace-guarded :
      (i : List StepInput) (x : Option Text) → is_guarded (replace_plan env i x s).1 ≡ true
  unfolding replace_plan with_plan
  replace-guarded i x = ground arith

  submit-guarded : is_guarded (submit_for_execution s).1 ≡ true
  unfolding submit_for_execution
  submit-guarded = ground arith

  approve-guarded : is_guarded (approve s).1 ≡ true
  unfolding approve
  approve-guarded = ground arith

  complete-guarded : is_guarded (complete s).1 ≡ true
  unfolding complete
  complete-guarded = ground arith

  revise-guarded : (t : Text) → is_guarded (revise t s).1 ≡ true
  unfolding revise
  revise-guarded t = ground arith

  replan-guarded : (t : Text) → is_guarded (request_replan t s).1 ≡ true
  unfolding request_replan
  replan-guarded t = ground arith

  cancel-guarded : (r : Option Text) → is_guarded (cancel r s).1 ≡ true
  unfolding cancel
  cancel-guarded r = ground arith

  change_step-guarded :
      (k : Text) (st : PlanStepStatus) (t : PlanStep)
      → is_guarded (change_step env k st t s).1 ≡ true
  unfolding change_step with_status
  change_step-guarded k st t = ground arith

  update-guarded :
      (i : Text) (st : Option PlanStepStatus) → is_guarded (update_step env i st s).1 ≡ true
  unfolding update_step
  update-guarded i st = elim (Outcome-cases (required_text i)) [
    | inr (e, r) ↦ ground arith
    | inl (k, r) ↦ elim (Outcome-cases (find_target k st s.steps)) [
      | inr (e, f) ↦ ground arith
      | inl ((t, x), f) ↦ ground (arith, change_step-guarded k x t)
    ]
  ]

  body-guarded : (call : PlanCall) → is_guarded (body env call s).1 ≡ true
  unfolding body
  body-guarded (PlanCall.select_execution_path m r b) = select-guarded m r b
  body-guarded (PlanCall.force_plan r b) = force-guarded r b
  body-guarded (PlanCall.replace_plan i x) = replace-guarded i x
  body-guarded PlanCall.submit_for_execution = submit-guarded
  body-guarded PlanCall.approve = approve-guarded
  body-guarded PlanCall.complete = complete-guarded
  body-guarded (PlanCall.revise t) = revise-guarded t
  body-guarded (PlanCall.request_replan t) = replan-guarded t
  body-guarded (PlanCall.update_step i t) = update-guarded i t
  body-guarded (PlanCall.cancel r) = cancel-guarded r

  perform-guarded : (call : PlanCall) → is_guarded (perform env call s).1 ≡ true
  unfolding perform record_transition
  perform-guarded call = ground (arith, body-guarded call)

  recorded-guarded : is_guarded (record_initial_state env s).1 ≡ true
  unfolding record_initial_state record_transition
  recorded-guarded = ground arith

initial-guarded :
    (env : Env) (policy : PlanPolicy) (approval : PlanApprovalPolicy) (goal : Text)
    → is_guarded (initial env policy approval goal) ≡ true
unfolding initial
initial-guarded env PlanPolicy.off approval goal = ground arith
initial-guarded env PlanPolicy.auto approval goal = ground arith
initial-guarded env PlanPolicy.required approval goal = ground arith

pub Visits-guarded : (env : Env) {s : PlanState} → Visits env s → is_guarded s ≡ true
Visits-guarded env (start policy approval goal) = initial-guarded env policy approval goal
Visits-guarded env (recorded {s = s} v) = recorded-guarded env s (Visits-guarded env v)
Visits-guarded env (next {s = s} call v) = perform-guarded env s (Visits-guarded env v) call
