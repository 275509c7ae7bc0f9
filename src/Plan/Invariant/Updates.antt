-- ===== src/Plan/Invariant/Updates.antt =====
-- update_step, replace_plan and reset of src/runtime/plan/controller.py, check by check.
use local_coding_agent_harne.Prelude.{
  ◌≡◌, ◌⊎◌, refl, sym, true, false, ◌&&◌, Option, none, some, List, [], ◌∷◌, map, Text, ok, err,
  arith, Bool-cases, Outcome-cases, take, strip, inl, inr, count_of, all_of, ◌≤◌, is_nil, subst,
}
use local_coding_agent_harne.Plan.Models.{
  PlanStepStatus, status_is, PlanPolicy, PlanPhase, PlanApprovalPolicy, ExecutionPath, PlanError,
  Env, StepInput, PlanStep, PlanState, plan_step_fingerprint, insert, keys,
}
use local_coding_agent_harne.Plan.Validation.{
  is_fingerprint, initial, ids, distinct, is_in_progress, is_completed, same_set, completed_ids,
}
use local_coding_agent_harne.Plan.Controller.Base.{PlanAction, required_text, optional_text}
use local_coding_agent_harne.Plan.Controller.Drafting.{
  replace_plan, from_values, with_plan, retain_step, retain_ledger,
}
use local_coding_agent_harne.Plan.Controller.Progress.{
  update_step, change_step, change_target, find_target, with_status, set_status, find_step,
  another_in_progress, is_allowed_change,
}
use local_coding_agent_harne.Plan.Invariant.Ledger.{insert-entries}
use local_coding_agent_harne.Plan.Invariant.Progress.{
  ids-set_status, is_nil-set_status, count-set_status-le, completed_ids-set_status,
  evidence-set_status, count-set_status_start, evidence_complete, same_set_complete, find_step-id,
}
use local_coding_agent_harne.Plan.Invariant.Drafting.{
  has_id, from_values-has_id, ids-retain, count-retain, any-retain, evidence-retain,
  same_set-retain, entries-retain,
}
use local_coding_agent_harne.Plan.Invariant.Methods.{IsDigest, Checked}

module _ (env : Env) (s : PlanState) where
  -- An executing plan whose step `identifier` is set to a status that is not completed.
  open_step-Checked :
      (k : Text) (status : PlanStepStatus) (target : PlanStep)
      → Checked env s
      → s.phase ≡ PlanPhase.executing
      → find_step k s.steps ≡ some target
      → is_completed target ≡ false
      → status_is status PlanStepStatus.completed ≡ false
      → count_of is_in_progress (set_status k status s.steps) ≤ 1
      → Checked env (record s { steps = set_status k status s.steps })
  open_step-Checked k status target c e f t o n = ground (
    arith,
    ids-set_status k status s.steps,
    is_nil-set_status k status s.steps,
    completed_ids-set_status k status s.steps {target = target} f t o,
    evidence-set_status k status env s.completion_ledger s.steps o,
  )

  done_step-Checked :
      (k : Text) (target : PlanStep)
      → IsDigest env
      → is_nil target.id ≡ false
      → Checked env s
      → s.phase ≡ PlanPhase.executing
      → find_step k s.steps ≡ some target
      → Checked env (record s {
        steps = set_status k PlanStepStatus.completed s.steps;
        completion_ledger =
            insert target.id
              (plan_step_fingerprint env target.id target.description)
              s.completion_ledger;
      })
  done_step-Checked k target digest n c e f =
      let v = plan_step_fingerprint env target.id target.description in
      let steps' = set_status k PlanStepStatus.completed s.steps in
      let same : same_set (keys (insert target.id v s.completion_ledger)) (completed_ids steps')
          ≡ true =
        subst (λ i. same_set (keys (insert i v s.completion_ledger)) (completed_ids steps') ≡ true)
          (sym (find_step-id k s.steps {target = target} f))
          (same_set_complete k v s.completion_ledger s.steps {target = target} f (ground arith)) in
      let fp : is_fingerprint v ≡ true = unfold plan_step_fingerprint in digest _ in
      ground (
        arith,
        ids-set_status k PlanStepStatus.completed s.steps,
        is_nil-set_status k PlanStepStatus.completed s.steps,
        count-set_status-le k PlanStepStatus.completed s.steps refl,
        evidence_complete env k s.completion_ledger s.steps target f,
        insert-entries target.id v s.completion_ledger n fp,
      )

  change_step-result :
      (k : Text) (status : PlanStepStatus) (target : PlanStep) {a : Option PlanAction}
      → (change_step env k status target s).0 ≡ ok a
      → (is_allowed_change target.status status ≡ true)
        × ((status_is status PlanStepStatus.in_progress && another_in_progress k s.steps) ≡ false)
        × ((change_step env k status target s).1 ≡ with_status env k status target s)
  unfolding change_step
  change_step-result k status target h = ground arith

  change_step-Checked :
      (k : Text) (status : PlanStepStatus) (target : PlanStep) {a : Option PlanAction}
      → IsDigest env
      → is_nil k ≡ false
      → Checked env s
      → s.phase ≡ PlanPhase.executing
      → find_step k s.steps ≡ some target
      → (change_step env k status target s).0 ≡ ok a
      → Checked env (change_step env k status target s).1
  unfolding with_status
  change_step-Checked k PlanStepStatus.completed target {a} digest n c e f h =
      let (allowed, other, out) = change_step-result k PlanStepStatus.completed target {a = a} h in
      let here : is_nil target.id ≡ false = rw (find_step-id k s.steps {target = target} f) n in
      subst (Checked env) (sym out) (done_step-Checked k target digest here c e f)
  change_step-Checked k PlanStepStatus.pending target {a} digest n c e f h =
      let (allowed, other, out) = change_step-result k PlanStepStatus.pending target {a = a} h in
      subst (Checked env) (sym out) (
        open_step-Checked k PlanStepStatus.pending target c e f (ground arith) refl
          (ground (arith, count-set_status-le k PlanStepStatus.pending s.steps refl)))
  change_step-Checked k PlanStepStatus.in_progress target {a} digest n c e f h =
      let (allowed, other, out) =
        change_step-result k PlanStepStatus.in_progress target {a = a} h in
      subst (Checked env) (sym out) (
        open_step-Checked k PlanStepStatus.in_progress target c e f (ground arith) refl
          (count-set_status_start k s.steps other c.1.0))

-- A text that is accepted is not empty.
required_text-ne : (r t : Text) → required_text r ≡ ok t → is_nil t ≡ false
unfolding required_text
required_text-ne r t h = elim (Bool-cases (is_nil (strip r))) [
  | inl e ↦ absurd (ground arith)
  | inr e ↦ rw (← taken r t e h) (is_nil-take (strip r) e)
]
  where
    is_nil-take : (u : Text) → is_nil u ≡ false → is_nil (take 2000 u) ≡ false
    is_nil-take [] h = cc
    is_nil-take (x ∷ xs) h = refl

    taken :
        (r t : Text) → is_nil (strip r) ≡ false → required_text r ≡ ok t → take 2000 (strip r) ≡ t
    taken r t e h = ground arith

find_target-ok :
    (k : Text) (status : Option PlanStepStatus) (steps : List PlanStep) (t : PlanStep)
    (st : PlanStepStatus)
    → find_target k status steps ≡ ok (t, st)
    → find_step k steps ≡ some t
unfolding find_target
find_target-ok k none steps t st h = cc
find_target-ok k (some status) steps t st h = ground arith

module _ (env : Env) (s : PlanState) {a : Option PlanAction} (step_id : Text) where
  update-result :
      (status : Option PlanStepStatus) (k : Text) (t : PlanStep) (st : PlanStepStatus)
      → required_text step_id ≡ ok k
      → find_target k status s.steps ≡ ok (t, st)
      → (update_step env step_id status s).0 ≡ ok a
      → (s.phase ≡ PlanPhase.executing)
        × (s.execution_path ≡ ExecutionPath.plan)
        × (update_step env step_id status s ≡ change_target env k (t, st) s)
  unfolding update_step
  update-result status k t st r f h = ground arith

  update-needs_text :
      (status : Option PlanStepStatus) {e : PlanError}
      → required_text step_id ≡ err e
      → ¬ ((update_step env step_id status s).0 ≡ ok a)
  unfolding update_step
  update-needs_text status r h = ground arith

  update-needs_target :
      (status : Option PlanStepStatus) (k : Text) {e : PlanError}
      → required_text step_id ≡ ok k
      → find_target k status s.steps ≡ err e
      → ¬ ((update_step env step_id status s).0 ≡ ok a)
  unfolding update_step
  update-needs_target status k r f h = ground arith

  pub update-path :
      (status : Option PlanStepStatus)
      → (update_step env step_id status s).0 ≡ ok a
      → (update_step env step_id status s).1.execution_path ≡ ExecutionPath.plan
  unfolding change_step with_status
  update-path status h = elim (Outcome-cases (required_text step_id)) [
    | inr (e, r) ↦ absurd (update-needs_text status r h)
    | inl (k, r) ↦ elim (Outcome-cases (find_target k status s.steps)) [
      | inr (e, f) ↦ absurd (update-needs_target status k r f h)
      | inl ((t, st), f) ↦
          let (phase, path, out) = update-result status k t st r f h in rw out (ground arith)
    ]
  ]

  pub update-Checked :
      (status : Option PlanStepStatus)
      → IsDigest env
      → Checked env s
      → (update_step env step_id status s).0 ≡ ok a
      → Checked env (update_step env step_id status s).1
  update-Checked status digest c h = elim (Outcome-cases (required_text step_id)) [
    | inr (e, r) ↦ absurd (update-needs_text status r h)
    | inl (k, r) ↦ elim (Outcome-cases (find_target k status s.steps)) [
      | inr (e, f) ↦ absurd (update-needs_target status k r f h)
      | inl ((t, st), f) ↦
          let (phase, path, out) = update-result status k t st r f h in
          let found = find_target-ok k status s.steps t st f in
          subst (λ r. Checked env r.1) (sym out)
            (elim (Bool-cases (status_is t.status st)) [
              | inl same ↦ rw same c
              | inr other ↦ rw other (
                  change_step-Checked env s k st t {a = a} digest (required_text-ne step_id k r) c
                    phase found (ground arith))
            ])
    ]
  ]

-- What `replace_plan` writes for the steps that it has read.
abbrev redrafted : Env → List PlanStep → Option Text → PlanState → PlanState
redrafted env steps explanation s =
    with_plan (map (retain_step env s.completion_ledger) steps)
      (retain_ledger env s.completion_ledger steps []) (optional_text explanation) s

redrafted-Checked :
    (env : Env) (s : PlanState) (explanation : Option Text) (steps : List PlanStep)
    → IsDigest env
    → all_of has_id steps ≡ true
    → distinct (ids steps) ≡ true
    → s.phase ≡ PlanPhase.planning
    → Checked env s
    → Checked env (redrafted env steps explanation s)
unfolding with_plan
redrafted-Checked env s explanation steps digest n d p c = ground (
  arith,
  ids-retain env s.completion_ledger steps,
  count-retain env s.completion_ledger steps,
  any-retain env s.completion_ledger steps,
  evidence-retain env s.completion_ledger steps [],
  same_set-retain env s.completion_ledger steps,
  entries-retain env s.completion_ledger digest steps [],
)

module _ (env : Env) (s : PlanState) (inputs : List StepInput) (explanation : Option Text)
    {a : Option PlanAction} where
  replace-needs_steps :
      {e : PlanError}
      → from_values inputs ≡ err e
      → ¬ ((replace_plan env inputs explanation s).0 ≡ ok a)
  unfolding replace_plan
  replace-needs_steps r h = ground arith

  replace-result :
      (steps : List PlanStep)
      → from_values inputs ≡ ok steps
      → (replace_plan env inputs explanation s).0 ≡ ok a
      → (distinct (ids steps) ≡ true)
        × (s.phase ≡ PlanPhase.planning)
        × (s.execution_path ≡ ExecutionPath.plan)
        × (((replace_plan env inputs explanation s).1 ≡ s)
            ⊎ ((replace_plan env inputs explanation s).1 ≡ redrafted env steps explanation s))
  unfolding replace_plan
  replace-result steps r h = ground arith

  pub replace-path :
      (replace_plan env inputs explanation s).0 ≡ ok a
      → (replace_plan env inputs explanation s).1.execution_path ≡ ExecutionPath.plan
  unfolding with_plan
  replace-path h = elim (Outcome-cases (from_values inputs)) [
    | inr (e, r) ↦ absurd (replace-needs_steps r h)
    | inl (steps, r) ↦ let (d, p, path, out) = replace-result steps r h in ground arith
  ]

  pub replace-Checked :
      IsDigest env
      → Checked env s
      → (replace_plan env inputs explanation s).0 ≡ ok a
      → Checked env (replace_plan env inputs explanation s).1
  replace-Checked digest c h = elim (Outcome-cases (from_values inputs)) [
    | inr (e, r) ↦ absurd (replace-needs_steps r h)
    | inl (steps, r) ↦
        let (d, p, path, out) = replace-result steps r h in
        elim out [
          | inl same ↦ subst (Checked env) (sym same) c
          | inr new ↦ subst (Checked env) (sym new) (
              redrafted-Checked env s explanation steps digest (from_values-has_id inputs steps r) d
                p c)
        ]
  ]

-- A fresh state is valid, whatever the policies and the goal.
pub initial-Checked :
    (env : Env) (policy : PlanPolicy) (approval : PlanApprovalPolicy) (goal : Text)
    → Checked env (initial env policy approval goal)
unfolding initial distinct
initial-Checked env PlanPolicy.off approval goal = ground arith
initial-Checked env PlanPolicy.auto approval goal = ground arith
initial-Checked env PlanPolicy.required approval goal = ground arith
