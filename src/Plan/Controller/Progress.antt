-- ===== src/Plan/Controller/Progress.antt =====
-- src/runtime/plan/controller.py: update_step, request_replan and complete.
use local_coding_agent_harne.Prelude.{
  Bool, true, false, not, ◌&&◌, Option, none, some, List, [], ◌∷◌, map, Text, text_eq,
  if◌then◌else◌, Outcome, ok, err, any_of, all_of, pure, lift, modify, require, require_all, ◌>>=◌,
  ◌>>◌,
}
use local_coding_agent_harne.Plan.Models.{
  PlanPhase, PlanStepStatus, PlanFault, PlanRefusal, PlanError, status_is, Env,
  plan_step_fingerprint, PlanStep, insert, PlanState,
}
use local_coding_agent_harne.Plan.Validation.{is_in_progress, is_completed}
use local_coding_agent_harne.Plan.Controller.Base.{
  Body, invalid, refused, self, require_authorized_execution, required_text, back_to_planning,
  PlanAction,
}

unfoldable pub find_step : Text → List PlanStep → Option PlanStep
find_step k [] = none
find_step k (step ∷ steps) = if text_eq step.id k then some step else find_step k steps

-- An assignment to the status of the step that `find_step` finds.
unfoldable pub set_status : Text → PlanStepStatus → List PlanStep → List PlanStep
set_status k status [] = []
set_status k status (step ∷ steps) =
    if text_eq step.id k
    then record step { status = status } ∷ steps
    else step ∷ set_status k status steps

abbrev pub is_allowed_change : PlanStepStatus → PlanStepStatus → Bool
is_allowed_change PlanStepStatus.pending PlanStepStatus.in_progress = true
is_allowed_change PlanStepStatus.pending PlanStepStatus.completed = true
is_allowed_change PlanStepStatus.in_progress PlanStepStatus.pending = true
is_allowed_change PlanStepStatus.in_progress PlanStepStatus.completed = true
is_allowed_change _ _ = false

abbrev pub another_in_progress : Text → List PlanStep → Bool
another_in_progress k steps = any_of (λ step. is_in_progress step && not (text_eq step.id k)) steps

-- The state that a change of the target's status writes.
unfoldable pub with_status : Env → Text → PlanStepStatus → PlanStep → PlanState → PlanState
with_status env identifier status target s = record s {
  steps = set_status identifier status s.steps;
  completion_ledger =
      if status_is status PlanStepStatus.completed
      then insert target.id (plan_step_fingerprint env target.id target.description)
          s.completion_ledger
      else s.completion_ledger;
}

unfoldable pub change_step : Env → Text → PlanStepStatus → PlanStep → Body
change_step env identifier status target = do
  s ← self
  require_all (
      (is_allowed_change target.status status, refused PlanRefusal.forbidden_step_change)
      ∷ (
        not (status_is status PlanStepStatus.in_progress && another_in_progress identifier s.steps),
        refused PlanRefusal.another_in_progress,
      )
      ∷ [])
  modify (with_status env identifier status target)
  pure (some PlanAction.plan_step_updated)

-- The target of a change, and its new status. The status is none if PlanStepStatus refuses it.
unfoldable pub find_target :
    Text → Option PlanStepStatus → List PlanStep → Outcome PlanError (PlanStep × PlanStepStatus)
find_target identifier none steps = err (invalid PlanFault.bad_status)
find_target identifier (some status) steps = elim (find_step identifier steps) [
  | none ↦ err (invalid PlanFault.unknown_step)
  | some target ↦ ok (target, status)
]

abbrev pub change_target : Env → Text → PlanStep × PlanStepStatus → Body
change_target env identifier (target, status) =
    if status_is target.status status then pure none else change_step env identifier status target

unfoldable pub update_step : Env → Text → Option PlanStepStatus → Body
update_step env step_id status = do
  require_authorized_execution
  identifier ← lift (required_text step_id)
  s ← self
  found ← lift (find_target identifier status s.steps)
  change_target env identifier found

abbrev pub pause : PlanStep → PlanStep
pause step = if is_in_progress step then record step { status = PlanStepStatus.pending } else step

-- The reason is checked after the state has been changed, and before the steps are paused.
unfoldable pub request_replan : Text → Body
request_replan reason = do
  require_authorized_execution
  modify back_to_planning
  reason' ← lift (required_text reason)
  modify (λ s. record s { revision_feedback = some reason'; steps = map pause s.steps })
  pure (some PlanAction.plan_replan_requested)

unfoldable pub complete : Body
complete = do
  require_authorized_execution
  s ← self
  require (all_of is_completed s.steps) (refused PlanRefusal.unfinished_steps)
  modify (λ s. record s { phase = PlanPhase.completed })
  pure (some PlanAction.plan_completed)
