-- ===== src/Plan/Evidence.antt =====
-- Completion evidence: the steps that replace_plan of src/runtime/plan/controller.py completes.
use local_coding_agent_harne.Prelude.{
  ◌≡◌, ◌⊎◌, inl, inr, refl, sym, true, not, ◌||◌, Option, List, [], ◌∷◌, map, Text, arith, ok, err,
  all_of, Outcome-cases, subst,
}
use local_coding_agent_harne.Plan.Models.{PlanError, Env, PlanStep, PlanState, StepInput, Ledger}
use local_coding_agent_harne.Plan.Validation.{is_completed}
use local_coding_agent_harne.Plan.Controller.{PlanCall, body, perform, record_transition}
use local_coding_agent_harne.Plan.Controller.Drafting.{
  replace_plan, retain_step, is_retained, with_plan, from_values,
}
use local_coding_agent_harne.Plan.Invariant.Calls.{IsValid, accepted-Checked}
use local_coding_agent_harne.Plan.Invariant.Methods.{Checked}

-- Each completed step has the fingerprint of its own text in the ledger.
abbrev pub IsBacked : Env → Ledger → List PlanStep → Type 0
IsBacked env ledger steps =
    all_of (λ step. not (is_completed step) || is_retained env ledger step) steps ≡ true

retain-IsBacked :
    (env : Env) (ledger : Ledger) (steps : List PlanStep)
    → IsBacked env ledger (map (retain_step env ledger) steps)
unfolding retain_step is_retained
retain-IsBacked env ledger [] = refl
retain-IsBacked env ledger (step ∷ steps) = ground (arith, retain-IsBacked env ledger steps)

-- A valid state's own completed steps are backed by its own ledger.
valid-IsBacked :
    (env : Env) (s : PlanState) → Checked env s → IsBacked env s.completion_ledger s.steps
unfolding is_retained
valid-IsBacked env s c = c.1.1.1.1.0

module _ (env : Env) (s : PlanState) (inputs : List StepInput) (explanation : Option Text) where
  unread-steps :
      {e : PlanError}
      → from_values inputs ≡ err e
      → (replace_plan env inputs explanation s).1.steps ≡ s.steps
  unfolding replace_plan
  unread-steps r = ground arith

  read-steps :
      (steps : List PlanStep)
      → from_values inputs ≡ ok steps
      → ((replace_plan env inputs explanation s).1.steps ≡ s.steps)
        ⊎ ((replace_plan env inputs explanation s).1.steps
            ≡ map (retain_step env s.completion_ledger) steps)
  unfolding replace_plan with_plan
  read-steps steps r = ground arith

  body-IsBacked :
      Checked env s
      → IsBacked env s.completion_ledger (replace_plan env inputs explanation s).1.steps
  body-IsBacked c =
      let ledger = s.completion_ledger in
      let kept = valid-IsBacked env s c in
      elim (Outcome-cases (from_values inputs)) [
        | inr (e, r) ↦ subst (IsBacked env ledger) (sym (unread-steps r)) kept
        | inl (steps, r) ↦ elim (read-steps steps r) [
          | inl same ↦ subst (IsBacked env ledger) (sym same) kept
          | inr new ↦ subst (IsBacked env ledger) (sym new) (retain-IsBacked env ledger steps)
        ]
      ]

  steps-perform :
      (perform env (PlanCall.replace_plan inputs explanation) s).1.steps
      ≡ (replace_plan env inputs explanation s).1.steps
  unfolding perform body record_transition
  steps-perform = ground arith

  -- After `replace_plan`, whether it returns or raises, a completed step is one whose own text has
  -- its fingerprint in the ledger from before the call.
  pub replace_plan-IsBacked :
      IsValid env s
      → IsBacked env s.completion_ledger
          (perform env (PlanCall.replace_plan inputs explanation) s).1.steps
  replace_plan-IsBacked v =
      subst (IsBacked env s.completion_ledger) (sym steps-perform)
        (body-IsBacked (accepted-Checked env s v.accepted))
