-- ===== src/Plan/Validation.antt =====
-- src/runtime/plan/models.py: PlanState.validate and PlanState.initial.
use local_coding_agent_harne.Prelude.{
  ℕ, Bool, true, false, not, ◌&&◌, ◌||◌, Option, none, some, List, [], ◌∷◌, map, Text, strip,
  text_eq, contains, length, is_nil, is_none, leb, ◌==◌, if◌then◌else◌, Outcome, ok, err,
  run_checks, all_of, any_of, count_of,
}
use local_coding_agent_harne.Plan.Models.{
  PlanPolicy, PlanApprovalPolicy, ExecutionPath, PlanPhase, PlanStepStatus, ApprovalSource,
  PlanFault, PlanError, phase_is, policy_is, path_is, status_is, Env, plan_step_fingerprint,
  PlanStep, Ledger, lookup, keys, PlanState,
}

abbrev pub is_in_progress : PlanStep → Bool
is_in_progress step = status_is step.status PlanStepStatus.in_progress

abbrev pub is_completed : PlanStep → Bool
is_completed step = status_is step.status PlanStepStatus.completed

abbrev pub ids : List PlanStep → List Text
ids steps = map (λ step. step.id) steps

-- `len(identifiers) == len(set(identifiers))`
unfoldable pub distinct : List Text → Bool
distinct [] = true
distinct (x ∷ xs) = not (contains x xs) && distinct xs

-- `character in "0123456789abcdef"`
abbrev pub is_hex : ℕ → Bool
is_hex c = (leb b'0' c && leb c b'9') || (leb b'a' c && leb c b'f')

abbrev pub is_fingerprint : Text → Bool
is_fingerprint t = length t == 64 && all_of is_hex t

abbrev pub is_ledger_entry : Text × Text → Bool
is_ledger_entry e = not (is_nil e.0) && is_fingerprint e.1

abbrev pub option_text_is : Option Text → Text → Bool
option_text_is none t = false
option_text_is (some s) t = text_eq s t

module _ (env : Env) where
  -- A completed step has its fingerprint in the ledger.
  abbrev pub has_evidence : Ledger → PlanStep → Bool
  has_evidence ledger step =
      not (is_completed step)
      || option_text_is (lookup step.id ledger) (plan_step_fingerprint env step.id step.description)

abbrev pub completed_ids : List PlanStep → List Text
completed_ids [] = []
completed_ids (step ∷ steps) =
    if is_completed step then step.id ∷ completed_ids steps else completed_ids steps

-- Equality of the sets of two lists' elements.
abbrev pub same_set : List Text → List Text → Bool
same_set xs ys = all_of (λ x. contains x ys) xs && all_of (λ y. contains y xs) ys

abbrev pub version_is : Option ℕ → ℕ → Bool
version_is none v = false
version_is (some a) v = a == v

abbrev pub version_within : Option ℕ → ℕ → Bool
version_within none v = true
version_within (some a) v = leb a v

abbrev pub expected_source : PlanApprovalPolicy → ApprovalSource
expected_source PlanApprovalPolicy.auto = ApprovalSource.auto_policy
expected_source PlanApprovalPolicy.manual = ApprovalSource.user

abbrev pub source_is : Option ApprovalSource → ApprovalSource → Bool
source_is (some ApprovalSource.user) ApprovalSource.user = true
source_is (some ApprovalSource.auto_policy) ApprovalSource.auto_policy = true
source_is _ _ = false

abbrev pub is_manual : PlanApprovalPolicy → Bool
is_manual PlanApprovalPolicy.manual = true
is_manual PlanApprovalPolicy.auto = false

-- "if a then b"
infix 20 ◌implies◌
abbrev pub ◌implies◌ : Bool → Bool → Bool
true implies b = b
false implies b = true

-- The checks of the steps and of the ledger, before the rest.
abbrev pub step_checks :
    Env → List PlanStep → Ledger → List (Bool × PlanFault) → List (Bool × PlanFault)
step_checks env steps ledger rest =
    (distinct (ids steps), PlanFault.duplicate_step_ids)
    ∷ (leb (count_of is_in_progress steps) 1, PlanFault.two_steps_in_progress)
    ∷ (all_of is_ledger_entry ledger, PlanFault.bad_ledger)
    ∷ (all_of (has_evidence env ledger) steps, PlanFault.missing_evidence)
    ∷ (same_set (keys ledger) (completed_ids steps), PlanFault.stale_ledger)
    ∷ rest

-- The checks of the lifecycle fields (of the policy, the path and the phase), in their order.
abbrev pub lifecycle_checks : PlanState → List (Bool × PlanFault)
lifecycle_checks s =
    let unauthorized = is_none s.approved_version && is_none s.approval_source in
    let still =
      phase_is s.phase PlanPhase.planning || phase_is s.phase PlanPhase.awaiting_approval in
    let idle = phase_is s.phase PlanPhase.inactive && is_nil s.steps in
    (
      policy_is s.policy PlanPolicy.off implies path_is s.execution_path ExecutionPath.direct,
      PlanFault.off_not_direct,
    )
    ∷ (policy_is s.policy PlanPolicy.off implies idle, PlanFault.off_not_inactive)
    ∷ (
      policy_is s.policy PlanPolicy.required implies path_is s.execution_path ExecutionPath.plan,
      PlanFault.required_not_plan,
    )
    ∷ (
      path_is s.execution_path ExecutionPath.undecided
          implies (policy_is s.policy PlanPolicy.auto && phase_is s.phase PlanPhase.inactive),
      PlanFault.undecided_not_auto,
    )
    ∷ (
      path_is s.execution_path ExecutionPath.undecided implies is_nil s.steps,
      PlanFault.undecided_with_steps,
    )
    ∷ (path_is s.execution_path ExecutionPath.direct implies idle, PlanFault.direct_with_lifecycle)
    ∷ (
      path_is s.execution_path ExecutionPath.direct implies unauthorized,
      PlanFault.direct_with_authorization,
    )
    ∷ (
      path_is s.execution_path ExecutionPath.plan implies not (phase_is s.phase PlanPhase.inactive),
      PlanFault.plan_inactive,
    )
    ∷ (
      (path_is s.execution_path ExecutionPath.plan
            && (phase_is s.phase PlanPhase.awaiting_approval
                || phase_is s.phase PlanPhase.executing
                || phase_is s.phase PlanPhase.completed))
          implies not (is_nil s.steps),
      PlanFault.active_without_steps,
    )
    ∷ (
      phase_is s.phase PlanPhase.awaiting_approval implies is_manual s.approval_policy,
      PlanFault.waiting_without_manual,
    )
    ∷ (still implies unauthorized, PlanFault.planning_with_authorization)
    ∷ (still implies not (any_of is_in_progress s.steps), PlanFault.planning_with_step_in_progress)
    ∷ (
      phase_is s.phase PlanPhase.executing implies version_is s.approved_version s.version,
      PlanFault.executing_unauthorized,
    )
    ∷ (
      phase_is s.phase PlanPhase.executing
          implies source_is s.approval_source (expected_source s.approval_policy),
      PlanFault.executing_wrong_source,
    )
    ∷ (
      phase_is s.phase PlanPhase.completed implies version_is s.approved_version s.version,
      PlanFault.completed_unauthorized,
    )
    ∷ (
      phase_is s.phase PlanPhase.completed implies all_of is_completed s.steps,
      PlanFault.completed_with_open_steps,
    )
    ∷ []

-- Every check, in the order of the code. A version is a natural number here, so it is never
-- negative.
abbrev pub state_checks : Env → PlanState → List (Bool × PlanFault)
state_checks env s =
    (version_within s.approved_version s.version, PlanFault.bad_approved_version)
    ∷ step_checks env s.steps s.completion_ledger (lifecycle_checks s)

unfoldable pub as_validation : Outcome PlanFault (Unit {0}) → Outcome PlanError (Unit {0})
as_validation (ok u) = ok tt
as_validation (err fault) = err (PlanError.validation fault)

unfoldable pub validate : Env → PlanState → Outcome PlanError (Unit {0})
unfolding as_validation
validate env s = as_validation (run_checks (state_checks env s))

-- `PlanState.initial` before its call of `validate`.
abbrev pub initial_path : PlanPolicy → ExecutionPath
initial_path PlanPolicy.off = ExecutionPath.direct
initial_path PlanPolicy.auto = ExecutionPath.undecided
initial_path PlanPolicy.required = ExecutionPath.plan

abbrev pub initial_phase : PlanPolicy → PlanPhase
initial_phase PlanPolicy.off = PlanPhase.inactive
initial_phase PlanPolicy.auto = PlanPhase.inactive
initial_phase PlanPolicy.required = PlanPhase.planning

unfoldable pub initial : Env → PlanPolicy → PlanApprovalPolicy → Text → PlanState
initial env policy approval_policy goal = record {
  policy = policy;
  execution_path = initial_path policy;
  phase = initial_phase policy;
  goal = strip goal;
  approval_policy = approval_policy;
  steps = [];
  version = 0;
  approved_version = none;
  explanation = none;
  selection_reason = none;
  revision_feedback = none;
  approval_source = none;
  completion_ledger = [];
  updated_at = env.utc_now;
}
