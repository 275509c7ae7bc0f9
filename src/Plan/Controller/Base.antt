-- ===== src/Plan/Controller/Base.antt =====
-- src/runtime/plan/controller.py: the guards and the text helpers that the methods share.
use local_coding_agent_harne.Prelude.{
  ◌+◌, Bool, Option, none, some, List, [], ◌∷◌, Text, strip, take, is_nil, if◌then◌else◌, Outcome,
  ok, err, Exec, require_all, ◌>>=◌,
}
use local_coding_agent_harne.Plan.Models.{
  ExecutionPath, PlanPhase, PlanFault, PlanRefusal, PlanError, phase_is, path_is, PlanState,
}
use local_coding_agent_harne.Plan.Validation.{version_is}

-- The actions under which transitions are recorded.
pub data PlanAction : Type 0 where
  initialized task_initialized selected_direct selected_plan plan_forced_by_user : PlanAction
  plan_replaced plan_auto_authorized plan_submitted plan_approved : PlanAction
  plan_revision_requested plan_step_updated plan_replan_requested plan_cancelled : PlanAction
  plan_completed : PlanAction

abbrev pub Method : Type 0 → Type 0
Method A = Exec PlanError PlanState A

-- The part of a method before its `_record`: the action to record, or none if it returns early.
abbrev pub Body : Type 0
Body = Method (Option PlanAction)

abbrev pub invalid : PlanFault → PlanError
invalid = PlanError.validation

abbrev pub refused : PlanRefusal → PlanError
refused = PlanError.transition

abbrev pub self : Method PlanState
self s = (ok s, s)

abbrev pub phase_checks : PlanPhase → PlanState → List (Bool × PlanError)
phase_checks expected s =
    (path_is s.execution_path ExecutionPath.plan, refused PlanRefusal.not_plan_mode)
    ∷ (phase_is s.phase expected, refused PlanRefusal.wrong_phase)
    ∷ []

abbrev pub require_phase : PlanPhase → Method (Unit {0})
require_phase expected = do s ← self; require_all (phase_checks expected s)

abbrev pub require_authorized_execution : Method (Unit {0})
require_authorized_execution = do
  s ← self
  require_all (
      (path_is s.execution_path ExecutionPath.plan, refused PlanRefusal.not_plan_mode)
      ∷ (phase_is s.phase PlanPhase.executing, refused PlanRefusal.wrong_phase)
      ∷ (version_is s.approved_version s.version, refused PlanRefusal.not_authorized)
      ∷ [])

unfoldable pub required_text : Text → Outcome PlanError Text
required_text value =
    let normalized = strip value in
    if is_nil normalized then err (invalid PlanFault.empty_text) else ok (take 2000 normalized)

abbrev pub none_if_empty : Text → Option Text
none_if_empty [] = none
none_if_empty (c ∷ t) = some (c ∷ t)

unfoldable pub optional_text : Option Text → Option Text
optional_text none = none
optional_text (some value) = none_if_empty (take 2000 (strip value))

-- Back to planning, with a new version that nothing authorizes.
abbrev pub back_to_planning : PlanState → PlanState
back_to_planning s = record s {
  phase = PlanPhase.planning;
  version = s.version + 1;
  approved_version = none;
  approval_source = none;
}
