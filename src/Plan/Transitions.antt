-- ===== src/Plan/Transitions.antt =====
-- How the methods of src/runtime/plan/controller.py move between the phases of a plan.
use local_coding_agent_harne.Prelude.{
  ◌∙◌, ◌≡◌, ◌≢◌, ◌⊎◌, refl, sym, Bool, true, Option, none, some, List, [], Text, strip, arith, ok,
  err, Outcome, any_of,
}
use local_coding_agent_harne.Plan.Models.{
  PlanApprovalPolicy, ExecutionPath, PlanPhase, PlanStepStatus, PlanError, PlanFault, Env, PlanStep,
  PlanState, StepInput,
}
use local_coding_agent_harne.Plan.Validation.{validate, is_in_progress}
use local_coding_agent_harne.Plan.Controller.Base.{PlanAction, required_text, back_to_planning}
use local_coding_agent_harne.Plan.Controller.{PlanCall, body, perform, record_transition}
use local_coding_agent_harne.Plan.Controller.Selection.{
  select_execution_path, force_plan, forced, without_plan, with_selection,
}
use local_coding_agent_harne.Plan.Controller.Drafting.{
  replace_plan, submit_for_execution, with_plan,
}
use local_coding_agent_harne.Plan.Controller.Approval.{approve, revise, cancel}
use local_coding_agent_harne.Plan.Controller.Progress.{
  update_step, request_replan, complete, change_step, with_status,
}
use local_coding_agent_harne.Plan.Invariant.Methods.{Checked}
use local_coding_agent_harne.Plan.Invariant.Calls.{IsValid, accepted-Checked}

abbrev pub IsOver : PlanState → Type 0
IsOver s = (s.phase ≡ PlanPhase.completed) ⊎ (s.phase ≡ PlanPhase.cancelled)

-- A body that raises and leaves the state as it was.
abbrev Refuses : (Outcome PlanError (Option PlanAction) × PlanState) → PlanState → Type 0
Refuses (ok a, s') s = ⊥
Refuses (err e, s') s = s' ≡ s

module _ (env : Env) (s : PlanState) where
  phase-select :
      (m : Option ExecutionPath) (r : Text) (b : Bool)
      → (select_execution_path m r b s).1.phase ≡ PlanPhase.executing
      → s.phase ≡ PlanPhase.executing
  unfolding select_execution_path with_selection
  phase-select none r b h = h
  phase-select (some m) r b h = ground arith

  phase-force :
      (r : Text) (b : Bool)
      → (force_plan r b s).1.phase ≡ PlanPhase.executing
      → s.phase ≡ PlanPhase.executing
  unfolding force_plan forced without_plan
  phase-force r b h = ground arith

  phase-replace :
      (i : List StepInput) (x : Option Text) → (replace_plan env i x s).1.phase ≡ s.phase
  unfolding replace_plan with_plan
  phase-replace i x = ground arith

  phase-change_step :
      (k : Text) (st : PlanStepStatus) (t : PlanStep) → (change_step env k st t s).1.phase ≡ s.phase
  unfolding change_step with_status
  phase-change_step k st t = ground arith

  phase-update :
      (i : Text) (st : Option PlanStepStatus)
      → (update_step env i st s).1.phase ≡ PlanPhase.executing
      → s.phase ≡ PlanPhase.executing
  unfolding update_step
  phase-update i st h = ground arith

-- With no authorization yet and manual approval, only `approve` starts the execution.
body-starts :
    (env : Env) (call : PlanCall) (s : PlanState)
    → s.approval_policy ≡ PlanApprovalPolicy.manual
    → s.phase ≢ PlanPhase.executing
    → (body env call s).1.phase ≡ PlanPhase.executing
    → (call ≡ PlanCall.approve) × (s.phase ≡ PlanPhase.awaiting_approval)
unfolding body
body-starts env (PlanCall.select_execution_path m r b) s p o h =
    absurd (o (phase-select env s m r b h))
body-starts env (PlanCall.force_plan r b) s p o h = absurd (o (phase-force env s r b h))
body-starts env (PlanCall.replace_plan i x) s p o h = absurd (o (sym (phase-replace env s i x) ∙ h))
body-starts env PlanCall.submit_for_execution s p o h = unfold submit_for_execution in ground arith
body-starts env PlanCall.approve s p o h = (refl, unfold approve in ground arith)
body-starts env PlanCall.complete s p o h = unfold complete in ground arith
body-starts env (PlanCall.revise t) s p o h = unfold revise in ground arith
body-starts env (PlanCall.request_replan t) s p o h = unfold request_replan in ground arith
body-starts env (PlanCall.update_step i t) s p o h = absurd (o (phase-update env s i t h))
body-starts env (PlanCall.cancel r) s p o h = unfold cancel in ground arith

phase-perform :
    (env : Env) (call : PlanCall) (s : PlanState)
    → (perform env call s).1.phase ≡ (body env call s).1.phase
unfolding perform record_transition
phase-perform env call s = ground arith

-- Under manual approval a call moves a plan into execution only if it is `approve`, and only from
-- a plan that waits for approval; whether the call returns or raises.
pub manual_start :
    (env : Env) (call : PlanCall) (s : PlanState)
    → s.approval_policy ≡ PlanApprovalPolicy.manual
    → s.phase ≢ PlanPhase.executing
    → (perform env call s).1.phase ≡ PlanPhase.executing
    → (call ≡ PlanCall.approve) × (s.phase ≡ PlanPhase.awaiting_approval)
manual_start env call s p o h = body-starts env call s p o (sym (phase-perform env call s) ∙ h)

-- `required_text` refuses what has no visible character.
required_text-blank :
    (t : Text) → strip t ≡ [] → required_text t ≡ err (PlanError.validation PlanFault.empty_text)
unfolding required_text
required_text-blank t h = rw h

-- A blank feedback makes `revise` raise, and the plan is back in planning all the same.
pub revise-blank :
    (env : Env) (s : PlanState) (feedback : Text)
    → s.execution_path ≡ ExecutionPath.plan
    → s.phase ≡ PlanPhase.awaiting_approval
    → strip feedback ≡ []
    → perform env (PlanCall.revise feedback) s
      ≡ (err (PlanError.validation PlanFault.empty_text), back_to_planning s)
unfolding perform body revise
revise-blank env s t p w h = ground (arith, required_text-blank t h)

back-invalid :
    (env : Env) (s : PlanState)
    → Checked env s
    → s.phase ≡ PlanPhase.executing
    → any_of is_in_progress s.steps ≡ true
    → validate env (back_to_planning s)
      ≡ err (PlanError.validation PlanFault.planning_with_step_in_progress)
unfolding validate
back-invalid env s c e i = ground arith

replan-raises :
    (env : Env) (s : PlanState) (reason : Text)
    → Checked env s
    → s.phase ≡ PlanPhase.executing
    → strip reason ≡ []
    → perform env (PlanCall.request_replan reason) s
      ≡ (err (PlanError.validation PlanFault.empty_text), back_to_planning s)
unfolding perform body request_replan
replan-raises env s t c e h = ground (arith, required_text-blank t h)

-- In a valid state in execution with a step in progress, a blank reason makes `request_replan` raise,
-- and leaves the plan in planning with its step still in progress, which `validate` refuses.
pub request_replan-blank :
    (env : Env) (s : PlanState) (reason : Text)
    → IsValid env s
    → s.phase ≡ PlanPhase.executing
    → any_of is_in_progress s.steps ≡ true
    → strip reason ≡ []
    → ((perform env (PlanCall.request_replan reason) s).0
        ≡ err (PlanError.validation PlanFault.empty_text))
      × (validate env (perform env (PlanCall.request_replan reason) s).1
          ≡ err (PlanError.validation PlanFault.planning_with_step_in_progress))
request_replan-blank env s t v e i h =
    let c = accepted-Checked env s v.accepted in
    rw (replan-raises env s t c e h) (refl, back-invalid env s c e i)
