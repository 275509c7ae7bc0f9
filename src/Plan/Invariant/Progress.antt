-- ===== src/Plan/Invariant/Progress.antt =====
-- What a change of one step's status does to the checks of the steps and of the ledger.
use local_coding_agent_harne.Prelude.{
  ◌≤◌, ◌≡◌, refl, sym, ◌∙◌, ap, true, false, ◌||◌, some, List, [], ◌∷◌, map, Text, text_eq,
  text_eq_iff, text_eq_refl, contains, all_of, any_of, count_of, is_nil, arith, inl, inr,
  Bool-cases,
}
use local_coding_agent_harne.Plan.Models.{
  PlanStepStatus, status_is, Env, plan_step_fingerprint, PlanStep, Ledger, lookup, insert, keys,
}
use local_coding_agent_harne.Plan.Validation.{
  is_in_progress, is_completed, ids, distinct, has_evidence, completed_ids, same_set,
}
use local_coding_agent_harne.Plan.Controller.Progress.{
  find_step, set_status, another_in_progress, pause,
}
use local_coding_agent_harne.Plan.Invariant.Ledger.{
  lookup-insert, contains-keys-insert, same_set_intro, same_set_elim,
}

module _ (k : Text) (status : PlanStepStatus) where
  pub ids-set_status : (steps : List PlanStep) → ids (set_status k status steps) ≡ ids steps
  unfolding set_status
  ids-set_status [] = refl
  ids-set_status (step ∷ steps) = ground (arith, ids-set_status steps)

  pub is_nil-set_status :
      (steps : List PlanStep) → is_nil (set_status k status steps) ≡ is_nil steps
  unfolding set_status
  is_nil-set_status [] = refl
  is_nil-set_status (step ∷ steps) = ground arith

  pub count-set_status-le :
      (steps : List PlanStep)
      → status_is status PlanStepStatus.in_progress ≡ false
      → count_of is_in_progress (set_status k status steps) ≤ count_of is_in_progress steps
  unfolding set_status
  count-set_status-le [] h = omega arith
  count-set_status-le (step ∷ steps) h = ground (arith, count-set_status-le steps h)

  pub completed_ids-set_status :
      (steps : List PlanStep) {target : PlanStep}
      → find_step k steps ≡ some target
      → is_completed target ≡ false
      → status_is status PlanStepStatus.completed ≡ false
      → completed_ids (set_status k status steps) ≡ completed_ids steps
  unfolding set_status find_step
  completed_ids-set_status [] f t h = cc
  completed_ids-set_status (step ∷ steps) {target} f t h = elim (Bool-cases (text_eq step.id k)) [
    | inl e ↦ ground arith
    | inr e ↦ ground (arith, completed_ids-set_status steps {target = target} (ground arith) t h)
  ]

  pub evidence-set_status :
      (env : Env) (l : Ledger) (steps : List PlanStep)
      → status_is status PlanStepStatus.completed ≡ false
      → all_of (has_evidence env l) steps ≡ true
      → all_of (has_evidence env l) (set_status k status steps) ≡ true
  unfolding set_status
  evidence-set_status env l [] h a = refl
  evidence-set_status env l (step ∷ steps) h a = ground (arith, evidence-set_status env l steps h)

-- With no other step in progress, and no step of that id, none is in progress.
count-zero :
    (k : Text) (steps : List PlanStep)
    → another_in_progress k steps ≡ false
    → contains k (ids steps) ≡ false
    → count_of is_in_progress steps ≡ 0
unfolding contains
count-zero k [] h m = refl
count-zero k (step ∷ steps) h m =
    ground (arith, text_eq_iff step.id k, text_eq_iff k step.id, count-zero k steps)

pub count-set_status_start :
    (k : Text) (steps : List PlanStep)
    → another_in_progress k steps ≡ false
    → distinct (ids steps) ≡ true
    → count_of is_in_progress (set_status k PlanStepStatus.in_progress steps) ≤ 1
unfolding set_status distinct
count-set_status_start k [] h d = omega arith
count-set_status_start k (step ∷ steps) h d = elim (Bool-cases (text_eq step.id k)) [
  | inl e ↦ ground (
    arith,
    text_eq_iff step.id k,
    count-zero k steps (ground arith) (rw (← (text_eq_iff step.id k).0 e) (ground arith)),
  )
  | inr e ↦ ground (arith, count-set_status_start k steps)
]

-- A new entry of the ledger leaves the evidence of the steps with other ids.
evidence-insert_ne :
    (env : Env) (k v : Text) (l : Ledger) (steps : List PlanStep)
    → contains k (ids steps) ≡ false
    → all_of (has_evidence env l) steps ≡ true
    → all_of (has_evidence env (insert k v l)) steps ≡ true
unfolding contains
evidence-insert_ne env k v l [] m a = refl
evidence-insert_ne env k v l (step ∷ steps) m a =
    let e : text_eq k step.id ≡ false = ground arith in
    let same : lookup step.id (insert k v l) ≡ lookup step.id l =
      rw (lookup-insert k step.id v l, e) in
    rw same (ground (arith, evidence-insert_ne env k v l steps))

pub find_step-id :
    (k : Text) (steps : List PlanStep) {target : PlanStep}
    → find_step k steps ≡ some target
    → target.id ≡ k
unfolding find_step
find_step-id k [] f = cc
find_step-id k (step ∷ steps) {target} f = elim (Bool-cases (text_eq step.id k)) [
  | inl e ↦ ground (arith, text_eq_iff step.id k)
  | inr e ↦ find_step-id k steps {target = target} (ground arith)
]

pub evidence_complete :
    (env : Env) (k : Text) (l : Ledger) (steps : List PlanStep) (target : PlanStep)
    → find_step k steps ≡ some target
    → distinct (ids steps) ≡ true
    → all_of (has_evidence env l) steps ≡ true
    → all_of
        (has_evidence env
          (insert target.id (plan_step_fingerprint env target.id target.description) l))
        (set_status k PlanStepStatus.completed steps)
      ≡ true
unfolding set_status find_step distinct
evidence_complete env k l [] target f d a = refl
evidence_complete env k l (step ∷ steps) target f d a = elim (Bool-cases (text_eq step.id k)) [
  | inl e ↦
      let same : step ≡ target = ground arith in
      let v = plan_step_fingerprint env step.id step.description in
      let found : lookup step.id (insert step.id v l) ≡ some v =
        rw (lookup-insert step.id step.id v l, text_eq_refl step.id) in
      rw (← same, e, found, text_eq_refl v)
        (evidence-insert_ne env step.id v l steps (ground arith) (ground arith))
  | inr e ↦
      let v = plan_step_fingerprint env target.id target.description in
      let here : target.id ≡ k = find_step-id k (step ∷ steps) f in
      let same : lookup step.id (insert target.id v l) ≡ lookup step.id l = ground (
        arith,
        lookup-insert target.id step.id v l,
        text_eq_iff target.id step.id,
        text_eq_iff step.id k,
      ) in
      let rest =
        evidence_complete env k l steps target (ground arith) (ground arith) (ground arith) in
      rw (e, same) (ground arith)
]

contains-completed_ids :
    (k j : Text) (steps : List PlanStep) {target : PlanStep}
    → find_step k steps ≡ some target
    → contains j (completed_ids (set_status k PlanStepStatus.completed steps))
      ≡ (text_eq j k || contains j (completed_ids steps))
unfolding set_status find_step contains
contains-completed_ids k j [] f = cc
contains-completed_ids k j (step ∷ steps) {target} f = elim (Bool-cases (text_eq step.id k)) [
  | inl e ↦ rw ((text_eq_iff step.id k).0 e) (ground (arith, text_eq_refl k))
  | inr e ↦ ground (arith, contains-completed_ids k j steps {target = target} (ground arith))
]

pub same_set_complete :
    (k v : Text) (l : Ledger) (steps : List PlanStep) {target : PlanStep}
    → find_step k steps ≡ some target
    → same_set (keys l) (completed_ids steps) ≡ true
    → same_set (keys (insert k v l)) (completed_ids (set_status k PlanStepStatus.completed steps))
      ≡ true
same_set_complete k v l steps f h = same_set_intro _ _ λ j.
    contains-keys-insert k j v l
    ∙ ap (λ b. text_eq j k || b) (same_set_elim (keys l) (completed_ids steps) j h)
    ∙ sym (contains-completed_ids k j steps f)

-- Pausing the steps.
pub ids-pause : (steps : List PlanStep) → ids (map pause steps) ≡ ids steps
ids-pause [] = refl
ids-pause (step ∷ steps) = ground (arith, ids-pause steps)

pub any-pause : (steps : List PlanStep) → any_of is_in_progress (map pause steps) ≡ false
any-pause [] = refl
any-pause (step ∷ steps) = ground (arith, any-pause steps)

pub count-pause : (steps : List PlanStep) → count_of is_in_progress (map pause steps) ≡ 0
count-pause [] = refl
count-pause (step ∷ steps) = ground (arith, count-pause steps)

pub completed_ids-pause :
    (steps : List PlanStep) → completed_ids (map pause steps) ≡ completed_ids steps
completed_ids-pause [] = refl
completed_ids-pause (step ∷ steps) = ground (arith, completed_ids-pause steps)

pub evidence-pause :
    (env : Env) (l : Ledger) (steps : List PlanStep)
    → all_of (has_evidence env l) steps ≡ true
    → all_of (has_evidence env l) (map pause steps) ≡ true
evidence-pause env l [] a = refl
evidence-pause env l (step ∷ steps) a = ground (arith, evidence-pause env l steps)
