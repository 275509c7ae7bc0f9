-- ===== src/Plan/Models.antt =====
-- src/runtime/plan/models.py: the enums, the steps and the state of a plan.
use local_coding_agent_harne.Prelude.{
  ℕ, Bool, true, false, Option, none, some, List, [], ◌∷◌, ◌++◌, map, Text, codes, strip, text_eq,
  length, is_nil, ltb, if◌then◌else◌, Outcome, ok, err,
}

pub data PlanPolicy : Type 0 where
  off auto required : PlanPolicy

pub data PlanApprovalPolicy : Type 0 where
  manual auto : PlanApprovalPolicy

pub data ExecutionPath : Type 0 where
  undecided direct plan : ExecutionPath

pub data PlanPhase : Type 0 where
  inactive planning awaiting_approval executing completed cancelled : PlanPhase

pub data PlanStepStatus : Type 0 where
  pending in_progress completed : PlanStepStatus

-- The two values that `approval_source` is given, "user" and "auto_policy".
pub data ApprovalSource : Type 0 where
  user auto_policy : ApprovalSource

-- One constructor for each reason for which a PlanValidationError is raised.
pub data PlanFault : Type 0 where
  empty_step_id empty_step_description long_step_id long_step_description : PlanFault
  bad_approved_version duplicate_step_ids two_steps_in_progress bad_ledger : PlanFault
  missing_evidence stale_ledger off_not_direct off_not_inactive required_not_plan : PlanFault
  undecided_not_auto undecided_with_steps direct_with_lifecycle direct_with_authorization :
      PlanFault
  plan_inactive active_without_steps waiting_without_manual planning_with_authorization : PlanFault
  planning_with_step_in_progress executing_unauthorized executing_wrong_source : PlanFault
  completed_unauthorized completed_with_open_steps : PlanFault
  bad_mode empty_text empty_plan plan_too_long not_created unknown_step : PlanFault
  bad_status malformed_step continuation_required bad_response : PlanFault

-- One constructor for each reason for which a PlanTransitionError is raised.
pub data PlanRefusal : Type 0 where
  not_auto_policy already_selected wrong_selection_phase has_mutations : PlanRefusal
  already_over already_planned not_plan_mode wrong_phase not_authorized : PlanRefusal
  forbidden_step_change another_in_progress not_cancellable unfinished_steps : PlanRefusal

-- The subclasses of PlanError.
pub data PlanError : Type 0 where
  validation : PlanFault → PlanError
  transition : PlanRefusal → PlanError

abbrev pub phase_is : PlanPhase → PlanPhase → Bool
phase_is PlanPhase.inactive PlanPhase.inactive = true
phase_is PlanPhase.planning PlanPhase.planning = true
phase_is PlanPhase.awaiting_approval PlanPhase.awaiting_approval = true
phase_is PlanPhase.executing PlanPhase.executing = true
phase_is PlanPhase.completed PlanPhase.completed = true
phase_is PlanPhase.cancelled PlanPhase.cancelled = true
phase_is _ _ = false

abbrev pub policy_is : PlanPolicy → PlanPolicy → Bool
policy_is PlanPolicy.off PlanPolicy.off = true
policy_is PlanPolicy.auto PlanPolicy.auto = true
policy_is PlanPolicy.required PlanPolicy.required = true
policy_is _ _ = false

abbrev pub path_is : ExecutionPath → ExecutionPath → Bool
path_is ExecutionPath.undecided ExecutionPath.undecided = true
path_is ExecutionPath.direct ExecutionPath.direct = true
path_is ExecutionPath.plan ExecutionPath.plan = true
path_is _ _ = false

abbrev pub status_is : PlanStepStatus → PlanStepStatus → Bool
status_is PlanStepStatus.pending PlanStepStatus.pending = true
status_is PlanStepStatus.in_progress PlanStepStatus.in_progress = true
status_is PlanStepStatus.completed PlanStepStatus.completed = true
status_is _ _ = false

-- What the code takes from outside: the hexadecimal SHA-256 digest of a text, and the clock's
-- reading as ISO text.
pub record Env : Type 0 where
  pub sha256_hex : Text → Text
  pub utc_now : Text

unfoldable pub plan_step_fingerprint : Env → Text → Text → Text
plan_step_fingerprint env step_id description =
    env.sha256_hex (strip step_id ++ codes "\n" ++ strip description)

pub record PlanStep : Type 0 where
  pub id : Text
  pub description : Text
  pub status : PlanStepStatus

-- A step as a caller gives it: `malformed` is a value that is no object, or has unknown fields,
-- lacks `id` or `description`, or holds something else than text there. No status in `fields` is
-- one that PlanStepStatus refuses; a caller that leaves the status out means `pending`.
pub data StepInput : Type 0 where
  fields : Text → Text → Option PlanStepStatus → StepInput
  malformed : StepInput

abbrev pub invalid {ℓ} : {A : Type ℓ} → PlanFault → Outcome PlanError A
invalid fault = err (PlanError.validation fault)

-- `PlanStep.__post_init__`: the texts are stripped, then checked.
abbrev pub post_init : Text → Text → PlanStepStatus → Outcome PlanError PlanStep
post_init id description status =
    if is_nil id
    then invalid PlanFault.empty_step_id
    else if is_nil description
    then invalid PlanFault.empty_step_description
    else if ltb 200 (length id)
    then invalid PlanFault.long_step_id
    else if ltb 1000 (length description)
    then invalid PlanFault.long_step_description
    else ok (record { id = id; description = description; status = status })

unfoldable pub from_value : StepInput → Outcome PlanError PlanStep
from_value (StepInput.fields id description (some status)) =
    post_init (strip id) (strip description) status
from_value (StepInput.fields id description none) = invalid PlanFault.bad_status
from_value StepInput.malformed = invalid PlanFault.malformed_step

-- `completion_ledger`: a dictionary from step ids to fingerprints.
abbrev pub Ledger : Type 0
Ledger = List (Text × Text)

unfoldable pub lookup : Text → Ledger → Option Text
lookup k [] = none
lookup k ((j, v) ∷ m) = if text_eq j k then some v else lookup k m

unfoldable pub insert : Text → Text → Ledger → Ledger
insert k v [] = (k, v) ∷ []
insert k v ((j, w) ∷ m) = if text_eq j k then (j, v) ∷ m else (j, w) ∷ insert k v m

abbrev pub keys : Ledger → List Text
keys l = map (λ e. e.0) l

pub record PlanState : Type 0 where
  pub policy : PlanPolicy
  pub execution_path : ExecutionPath
  pub phase : PlanPhase
  pub goal : Text
  pub approval_policy : PlanApprovalPolicy
  pub steps : List PlanStep
  pub version : ℕ
  pub approved_version : Option ℕ
  pub explanation : Option Text
  pub selection_reason : Option Text
  pub revision_feedback : Option Text
  pub approval_source : Option ApprovalSource
  pub completion_ledger : Ledger
  pub updated_at : Text
