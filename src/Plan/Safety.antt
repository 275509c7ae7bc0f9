-- ===== src/Plan/Safety.antt =====
-- The gate and the capabilities (src/runtime/plan/gate.py, capabilities.py) on the states that a
-- controller reaches.
use local_coding_agent_harne.Prelude.{
  Bool-cases, ◌≡◌, ◌≢◌, ◌⊎◌, inl, inr, refl, Bool, true, false, some, List, [], ◌∷◌, Text, codes,
  contains, arith,
}
use local_coding_agent_harne.Plan.Models.{
  PlanPolicy, ExecutionPath, PlanPhase, phase_is, path_is, policy_is, Env, PlanState,
}
use local_coding_agent_harne.Plan.Validation.{expected_source}
use local_coding_agent_harne.Plan.Capabilities.{
  plan_capabilities, tool_is_visible, is_visible, visible_tools, can_select,
  read_only_inspection_tools,
}
use local_coding_agent_harne.Plan.Gate
use local_coding_agent_harne.Plan.Authorized.{Visits, is_guarded, Visits-guarded}

-- A plan in execution, authorized at its current version by the party that its policy names.
pub record IsAuthorized (s : PlanState) : Type 0 where
  pub phase : s.phase ≡ PlanPhase.executing
  pub version : s.approved_version ≡ some s.version
  pub source : s.approval_source ≡ some (expected_source s.approval_policy)

side_effects-cases :
    (s : PlanState) (continued : Bool)
    → (plan_capabilities (some s) continued).can_execute_side_effects ≡ true
    → (s.policy ≡ PlanPolicy.off)
      ⊎ (s.execution_path ≡ ExecutionPath.direct)
      ⊎ (s.phase ≡ PlanPhase.executing)
unfolding plan_capabilities
side_effects-cases s continued h = ground arith

executing-IsAuthorized :
    (s : PlanState) → is_guarded s ≡ true → s.phase ≡ PlanPhase.executing → IsAuthorized s
executing-IsAuthorized s g e = record { phase = e; version = ground arith; source = ground arith }

off-direct :
    (s : PlanState)
    → is_guarded s ≡ true
    → s.policy ≡ PlanPolicy.off
    → s.execution_path ≡ ExecutionPath.direct
off-direct s g e = ground arith

-- In every state that a controller reaches from its initial one by any calls of its methods, those
-- that raised included, side effects are possible only on the direct path or under an authorization
-- of the current version by the party that the approval policy names.
pub side_effects-IsAuthorized :
    (env : Env) (s : PlanState) (continued : Bool)
    → Visits env s
    → (plan_capabilities (some s) continued).can_execute_side_effects ≡ true
    → (s.execution_path ≡ ExecutionPath.direct) ⊎ IsAuthorized s
side_effects-IsAuthorized env s continued v h =
    let g = Visits-guarded env v in
    elim (side_effects-cases s continued h) [
      | inl off ↦ inl (off-direct s g off)
      | inr (inl direct) ↦ inl direct
      | inr (inr executing) ↦ inr (executing-IsAuthorized s g executing)
    ]

-- The tools of a plan that is not in execution.
abbrev control_tools : List Text
control_tools =
    codes "select_execution_mode"
    ∷ codes "update_plan"
    ∷ codes "resolve_plan_response"
    ∷ read_only_inspection_tools

among :
    (name a b c : Text) (rest : List Text)
    → (contains name (a ∷ rest) ≡ true → contains name (a ∷ b ∷ c ∷ rest) ≡ true)
      × (contains name (b ∷ rest) ≡ true → contains name (a ∷ b ∷ c ∷ rest) ≡ true)
      × (contains name (c ∷ []) ≡ true → contains name (a ∷ b ∷ c ∷ rest) ≡ true)
      × (contains name [] ≡ false)
unfolding contains
among name a b c rest = ground arith

visible-control :
    (selecting : Bool) (phase : PlanPhase) (pending : Bool) (name : Text)
    → phase ≢ PlanPhase.executing
    → is_visible (visible_tools selecting phase pending) name ≡ true
    → contains name control_tools ≡ true
visible-control selecting phase pending name e h =
    let (x, y, z, w) =
      among name (codes "select_execution_mode") (codes "update_plan")
        (codes "resolve_plan_response") read_only_inspection_tools in
    ground arith

restricted-cases :
    (s : PlanState) (pending : Bool)
    → (plan_capabilities (some s) pending).can_execute_side_effects ≡ false
    → (policy_is s.policy PlanPolicy.off ≡ false)
      × (path_is s.execution_path ExecutionPath.direct ≡ false)
      × (phase_is s.phase PlanPhase.executing ≡ false)
unfolding plan_capabilities
restricted-cases s pending n = ground arith

hidden-control :
    (selecting : Bool) (phase : PlanPhase) (pending : Bool) (name : Text)
    → phase_is phase PlanPhase.executing ≡ false
    → contains name control_tools ≡ false
    → is_visible (visible_tools selecting phase pending) name ≡ false
hidden-control selecting phase pending name e absent =
    elim (Bool-cases (is_visible (visible_tools selecting phase pending) name)) [
      | inr hidden ↦ hidden
      | inl shown ↦
          ground (arith, visible-control selecting phase pending name (ground arith) shown)
    ]

-- Unless the plan authorizes execution, the gate lets through only the control tools and the
-- tools that inspect; every other call is blocked, under its own name.
pub check-inspection :
    (s : PlanState) (pending : Bool) (name : Text)
    → (plan_capabilities (some s) pending).can_execute_side_effects ≡ false
    → contains name control_tools ≡ false
    → (b : Gate.PlanBlock) × (Gate.check (some s) pending name ≡ some b) × (b.tool ≡ name)
unfolding Gate.check plan_capabilities tool_is_visible
check-inspection s pending name n absent =
    let (off, direct, running) = restricted-cases s pending n in
    let hidden : is_visible (visible_tools (can_select s) s.phase pending) name ≡ false =
      hidden-control (can_select s) s.phase pending name running absent in
    (Gate.block s pending name, rw (off, direct, running, hidden), refl)
