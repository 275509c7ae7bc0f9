-- ===== src/Plan/Controller/Approval.antt =====
-- src/runtime/plan/controller.py: approve, revise and cancel.
use local_coding_agent_harne.Prelude.{
  Bool, not, ◌||◌, Option, none, some, Text, is_nil, pure, lift, modify, require, ◌>>=◌, ◌>>◌,
}
use local_coding_agent_harne.Plan.Models.{
  PlanPhase, ApprovalSource, PlanFault, PlanRefusal, phase_is,
}
use local_coding_agent_harne.Plan.Controller.Base.{
  Method, Body, invalid, refused, self, require_phase, required_text, back_to_planning, PlanAction,
}

unfoldable pub approve : Body
approve = do
  require_phase PlanPhase.awaiting_approval
  s ← self
  require (not (is_nil s.steps)) (invalid PlanFault.empty_plan)
  modify (λ s. record s {
    approved_version = some s.version;
    approval_source = some ApprovalSource.user;
    phase = PlanPhase.executing;
  })
  pure (some PlanAction.plan_approved)

-- The feedback is checked after the state has been changed.
unfoldable pub revise : Text → Body
revise feedback = do
  require_phase PlanPhase.awaiting_approval
  modify back_to_planning
  feedback' ← lift (required_text feedback)
  modify (λ s. record s { revision_feedback = some feedback' })
  pure (some PlanAction.plan_revision_requested)

abbrev pub is_cancellable : PlanPhase → Bool
is_cancellable phase =
    phase_is phase PlanPhase.planning
    || phase_is phase PlanPhase.awaiting_approval
    || phase_is phase PlanPhase.executing

abbrev pub write_feedback : Text → Method (Unit {0})
write_feedback reason = do
  reason' ← lift (required_text reason)
  modify (λ s. record s { revision_feedback = some reason' })

unfoldable pub cancel : Option Text → Body
cancel reason = do
  s ← self
  require (is_cancellable s.phase) (refused PlanRefusal.not_cancellable)
  modify (λ s. record s { phase = PlanPhase.cancelled })
  elim reason [ none ↦ pure tt | some text ↦ write_feedback text ]
  pure (some PlanAction.plan_cancelled)
