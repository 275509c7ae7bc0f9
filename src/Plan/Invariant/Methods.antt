-- ===== src/Plan/Invariant/Methods.antt =====
-- The checks of `validate` on what the methods of src/runtime/plan/controller.py leave.
use local_coding_agent_harne.Prelude.{
  ◌≡◌, ◌≢◌, refl, sym, Bool, true, false, Option, none, some, List, [], ◌∷◌, Text, is_none, any_of,
  ◌&&◌, ok, err, Outcome-cases, subst, arith, Passes, inl, inr, is_nil,
}
use local_coding_agent_harne.Plan.Models.{
  PlanPolicy, PlanPhase, ExecutionPath, PlanError, path_is, Env, PlanStep, PlanState,
}
use local_coding_agent_harne.Plan.Validation.{
  state_checks, is_fingerprint, distinct, is_in_progress, ◌implies◌,
}
use local_coding_agent_harne.Plan.Controller.Base.{PlanAction, required_text}
use local_coding_agent_harne.Plan.Controller.Selection.{
  select_execution_path, force_plan, forced, without_plan, with_selection,
}
use local_coding_agent_harne.Plan.Controller.Drafting.{submit_for_execution}
use local_coding_agent_harne.Plan.Controller.Approval.{approve, revise, cancel}
use local_coding_agent_harne.Plan.Controller.Progress.{request_replan, complete}
use local_coding_agent_harne.Plan.Invariant.Progress.{
  ids-pause, any-pause, count-pause, completed_ids-pause, evidence-pause,
}

-- What is documented of SHA-256 digests: 64 lower-case hexadecimal digits.
abbrev pub IsDigest : Env → Type 0
IsDigest env = (t : Text) → is_fingerprint (env.sha256_hex t) ≡ true

-- Only a decided path carries an authorization. `validate` does not check this.
abbrev pub Undecided : PlanState → Type 0
Undecided s =
    (path_is s.execution_path ExecutionPath.undecided
      implies (is_none s.approved_version && is_none s.approval_source))
    ≡ true

abbrev pub Checked : Env → PlanState → Type 0
Checked env s = Passes (state_checks env s)

module _ (env : Env) (s : PlanState) {a : Option PlanAction} (c : Checked env s) where
  pub approve-Checked : (approve s).0 ≡ ok a → Checked env (approve s).1
  unfolding approve
  approve-Checked h = ground arith

  pub revise-Checked : (t : Text) → (revise t s).0 ≡ ok a → Checked env (revise t s).1
  unfolding revise
  revise-Checked t h = ground arith

  pub submit-Checked : (submit_for_execution s).0 ≡ ok a → Checked env (submit_for_execution s).1
  unfolding submit_for_execution
  submit-Checked h = ground arith

  pub complete-Checked : (complete s).0 ≡ ok a → Checked env (complete s).1
  unfolding complete
  complete-Checked h = ground arith

  pub cancel-Checked : (r : Option Text) → (cancel r s).0 ≡ ok a → Checked env (cancel r s).1
  unfolding cancel
  cancel-Checked r h = ground arith

  pub replan-Checked :
      (t : Text) → (request_replan t s).0 ≡ ok a → Checked env (request_replan t s).1
  unfolding request_replan
  replan-Checked t h = ground (
    arith,
    ids-pause s.steps,
    any-pause s.steps,
    count-pause s.steps,
    completed_ids-pause s.steps,
    evidence-pause env s.completion_ledger s.steps,
  )

-- A selection that is not refused, and the state that it leaves.
select-result :
    (s : PlanState) {a : Option PlanAction} (p : ExecutionPath) (r t : Text) (b : Bool)
    → required_text r ≡ ok t
    → (select_execution_path (some p) r b s).0 ≡ ok a
    → (s.policy ≡ PlanPolicy.auto)
      × (s.execution_path ≡ ExecutionPath.undecided)
      × (s.phase ≡ PlanPhase.inactive)
      × (path_is p ExecutionPath.undecided ≡ false)
      × ((select_execution_path (some p) r b s).1 ≡ with_selection p t s)
unfolding select_execution_path
select-result s p r t b e h = ground arith

any_of-nil : (steps : List PlanStep) → is_nil steps ≡ true → any_of is_in_progress steps ≡ false
any_of-nil [] h = refl
any_of-nil (step ∷ steps) h = cc

with_selection-Checked :
    (env : Env) (s : PlanState) (p : ExecutionPath) (t : Text)
    → Checked env s
    → Undecided s
    → s.policy ≡ PlanPolicy.auto
    → s.execution_path ≡ ExecutionPath.undecided
    → s.phase ≡ PlanPhase.inactive
    → path_is p ExecutionPath.undecided ≡ false
    → Checked env (with_selection p t s)
unfolding with_selection
with_selection-Checked env s ExecutionPath.undecided t c u hp he hf hq = ground arith
with_selection-Checked env s ExecutionPath.direct t c u hp he hf hq = ground arith
with_selection-Checked env s ExecutionPath.plan t c u hp he hf hq =
    ground (arith, any_of-nil s.steps)

select-needs_text :
    (s : PlanState) {a : Option PlanAction} (p : ExecutionPath) (r : Text) (b : Bool)
    {x : PlanError}
    → required_text r ≡ err x
    → ¬ ((select_execution_path (some p) r b s).0 ≡ ok a)
unfolding select_execution_path
select-needs_text s p r b e h = ground arith

force-needs_text :
    (s : PlanState) {a : Option PlanAction} (r : Text) (b : Bool) {x : PlanError}
    → required_text r ≡ err x
    → ¬ ((force_plan r b s).0 ≡ ok a)
unfolding force_plan
force-needs_text s r b e h = ground arith

force-result :
    (s : PlanState) {a : Option PlanAction} (r t : Text) (b : Bool)
    → required_text r ≡ ok t
    → (force_plan r b s).0 ≡ ok a
    → (force_plan r b s).1 ≡ without_plan t (forced s)
unfolding force_plan
force-result s r t b e h = ground arith

forced-Checked : (env : Env) (s : PlanState) (t : Text) → Checked env (without_plan t (forced s))
unfolding without_plan forced distinct
forced-Checked env s t = ground arith

module _ (env : Env) (s : PlanState) {a : Option PlanAction} where
  pub select-Checked :
      (m : Option ExecutionPath) (r : Text) (b : Bool)
      → Checked env s
      → Undecided s
      → (select_execution_path m r b s).0 ≡ ok a
      → Checked env (select_execution_path m r b s).1
  select-Checked none r b c u h = absurd (unfold select_execution_path in ground arith)
  select-Checked (some p) r b c u h = elim (Outcome-cases (required_text r)) [
    | inl (t, e) ↦
        let (hp, he, hf, hq, out) = select-result s {a = a} p r t b e h in
        subst (Checked env) (sym out) (with_selection-Checked env s p t c u hp he hf hq)
    | inr (x, e) ↦ absurd (select-needs_text s {a = a} p r b e h)
  ]

  pub select-path :
      (m : Option ExecutionPath) (r : Text) (b : Bool)
      → (select_execution_path m r b s).0 ≡ ok a
      → (select_execution_path m r b s).1.execution_path ≢ ExecutionPath.undecided
  unfolding with_selection
  select-path none r b h = absurd (unfold select_execution_path in ground arith)
  select-path (some p) r b h = elim (Outcome-cases (required_text r)) [
    | inl (t, e) ↦
        let (hp, he, hf, hq, out) = select-result s {a = a} p r t b e h in rw out (ground arith)
    | inr (x, e) ↦ absurd (select-needs_text s {a = a} p r b e h)
  ]

  pub force-Checked :
      (r : Text) (b : Bool) → (force_plan r b s).0 ≡ ok a → Checked env (force_plan r b s).1
  force-Checked r b h = elim (Outcome-cases (required_text r)) [
    | inl (t, e) ↦
        subst (Checked env) (sym (force-result s {a = a} r t b e h)) (forced-Checked env s t)
    | inr (x, e) ↦ absurd (force-needs_text s {a = a} r b e h)
  ]
