-- ===== src/Plan/Invariant/Drafting.antt =====
-- The steps and the ledger that replace_plan of src/runtime/plan/controller.py writes.
use local_coding_agent_harne.Prelude.{
  ◌≡◌, refl, Bool, true, false, not, ◌||◌, none, some, List, [], ◌∷◌, map, Text, text_eq_iff,
  text_eq_refl, contains, all_of, any_of, count_of, is_nil, arith, inl, inr, Bool-cases, ok,
}
use local_coding_agent_harne.Plan.Models.{
  Env, plan_step_fingerprint, StepInput, from_value, PlanStep, Ledger, lookup, insert, keys,
}
use local_coding_agent_harne.Plan.Validation.{
  is_in_progress, ids, distinct, has_evidence, completed_ids, same_set, is_fingerprint,
  is_ledger_entry,
}
use local_coding_agent_harne.Plan.Controller.Drafting.{
  from_values, is_retained, retain_step, retain_ledger,
}
use local_coding_agent_harne.Plan.Invariant.Ledger.{
  lookup-insert, contains-keys-insert, insert-entries, same_set_intro,
}

abbrev pub has_id : PlanStep → Bool
has_id step = not (is_nil step.id)

from_value-has_id :
    (input : StepInput) (step : PlanStep) → from_value input ≡ ok step → has_id step ≡ true
unfolding from_value
from_value-has_id (StepInput.fields id description (some status)) step h = ground arith
from_value-has_id (StepInput.fields id description none) step h = cc
from_value-has_id StepInput.malformed step h = cc

pub from_values-has_id :
    (inputs : List StepInput) (steps : List PlanStep)
    → from_values inputs ≡ ok steps
    → all_of has_id steps ≡ true
unfolding from_values
from_values-has_id [] steps h = ground arith
from_values-has_id (input ∷ inputs) [] h = ground arith
from_values-has_id (input ∷ inputs) (step ∷ steps) h =
    ground (arith, from_value-has_id input step, from_values-has_id inputs steps)

module _ (env : Env) (old : Ledger) where
  pub ids-retain : (steps : List PlanStep) → ids (map (retain_step env old) steps) ≡ ids steps
  unfolding retain_step
  ids-retain [] = refl
  ids-retain (step ∷ steps) = ground (arith, ids-retain steps)

  pub count-retain :
      (steps : List PlanStep) → count_of is_in_progress (map (retain_step env old) steps) ≡ 0
  unfolding retain_step
  count-retain [] = refl
  count-retain (step ∷ steps) = ground (arith, count-retain steps)

  pub any-retain :
      (steps : List PlanStep) → any_of is_in_progress (map (retain_step env old) steps) ≡ false
  unfolding retain_step
  any-retain [] = refl
  any-retain (step ∷ steps) = ground (arith, any-retain steps)

  pub is_nil-retain :
      (steps : List PlanStep) → is_nil (map (retain_step env old) steps) ≡ is_nil steps
  is_nil-retain [] = refl
  is_nil-retain (step ∷ steps) = refl

  lookup-retain_ne :
      (k : Text) (steps : List PlanStep) (acc : Ledger)
      → contains k (ids steps) ≡ false
      → lookup k (retain_ledger env old steps acc) ≡ lookup k acc
  unfolding retain_ledger contains
  lookup-retain_ne k [] acc h = refl
  lookup-retain_ne k (step ∷ steps) acc h =
      let v = plan_step_fingerprint env step.id step.description in
      ground (
        arith,
        text_eq_iff step.id k,
        text_eq_iff k step.id,
        lookup-insert step.id k v acc,
        lookup-retain_ne k steps acc,
        lookup-retain_ne k steps (insert step.id v acc),
      )

  pub evidence-retain :
      (steps : List PlanStep) (acc : Ledger)
      → distinct (ids steps) ≡ true
      → all_of
          (has_evidence env (retain_ledger env old steps acc))
          (map (retain_step env old) steps)
        ≡ true
  unfolding retain_ledger retain_step distinct
  evidence-retain [] acc d = refl
  evidence-retain (step ∷ steps) acc d =
      let v = plan_step_fingerprint env step.id step.description in
      let acc' = insert step.id v acc in
      ground (
        arith,
        text_eq_refl step.id,
        text_eq_refl v,
        lookup-insert step.id step.id v acc,
        lookup-retain_ne step.id steps acc',
        evidence-retain steps acc,
        evidence-retain steps acc',
      )

  keys-retain :
      (k : Text) (steps : List PlanStep) (acc : Ledger)
      → contains k (keys (retain_ledger env old steps acc))
        ≡ (contains k (completed_ids (map (retain_step env old) steps)) || contains k (keys acc))
  unfolding retain_ledger retain_step contains
  keys-retain k [] acc = refl
  keys-retain k (step ∷ steps) acc =
      let v = plan_step_fingerprint env step.id step.description in
      ground (
        arith,
        contains-keys-insert step.id k v acc,
        keys-retain k steps acc,
        keys-retain k steps (insert step.id v acc),
      )

  pub same_set-retain :
      (steps : List PlanStep)
      → same_set
          (keys (retain_ledger env old steps []))
          (completed_ids (map (retain_step env old) steps))
        ≡ true
  unfolding contains
  same_set-retain steps = same_set_intro _ _ λ k. ground (arith, keys-retain k steps [])

  pub entries-retain :
      ((t : Text) → is_fingerprint (env.sha256_hex t) ≡ true)
      → (steps : List PlanStep) (acc : Ledger) → all_of has_id steps ≡ true
      → all_of is_ledger_entry acc ≡ true
      → all_of is_ledger_entry (retain_ledger env old steps acc) ≡ true
  unfolding retain_ledger plan_step_fingerprint
  entries-retain digest [] acc n a = a
  entries-retain digest (step ∷ steps) acc n a =
      let v = plan_step_fingerprint env step.id step.description in
      elim (Bool-cases (is_retained env old step)) [
        | inl e ↦ rw e (
            entries-retain digest steps (insert step.id v acc) (ground arith)
              (insert-entries step.id v acc (ground arith) (digest _) a))
        | inr e ↦ rw e (entries-retain digest steps acc (ground arith) a)
      ]
