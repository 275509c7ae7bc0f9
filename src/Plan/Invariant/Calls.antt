-- ===== src/Plan/Invariant/Calls.antt =====
-- Validity under the calls of src/runtime/plan/controller.py, and the states they reach.
use local_coding_agent_harne.Prelude.{
  ◌≡◌, ◌≢◌, ◌⊎◌, refl, ap, Option, Text, Outcome, ok, err, arith, Option-cases, Outcome-cases, inl,
  inr, run_checks_sound, run_checks_complete,
}
use local_coding_agent_harne.Plan.Models.{
  PlanError, PlanFault, ExecutionPath, PlanPolicy, PlanApprovalPolicy, Env, PlanState,
}
use local_coding_agent_harne.Plan.Validation.{state_checks, validate, as_validation, initial}
use local_coding_agent_harne.Plan.Controller.Base.{PlanAction}
use local_coding_agent_harne.Plan.Controller.{PlanCall, body, touch, perform, record_transition}
use local_coding_agent_harne.Plan.Controller.Selection.{force_plan, forced, without_plan}
use local_coding_agent_harne.Plan.Controller.Drafting.{submit_for_execution}
use local_coding_agent_harne.Plan.Controller.Approval.{approve, revise, cancel}
use local_coding_agent_harne.Plan.Controller.Progress.{request_replan, complete}
use local_coding_agent_harne.Plan.Invariant.Methods.{
  IsDigest, Checked, Undecided, select-path, approve-Checked, revise-Checked, submit-Checked,
  complete-Checked, cancel-Checked, replan-Checked, select-Checked, force-Checked,
}
use local_coding_agent_harne.Plan.Invariant.Updates.{
  update-Checked, replace-Checked, replace-path, update-path, initial-Checked,
}

-- `validate` accepts the state, and only a decided path carries an authorization.
pub record IsValid (env : Env) (s : PlanState) : Type 0 where
  pub accepted : validate env s ≡ ok tt
  pub undecided : Undecided s

as_validation-ok : (o : Outcome PlanFault (Unit {0})) → as_validation o ≡ ok tt → o ≡ ok tt
unfolding as_validation
as_validation-ok (ok u) h = refl
as_validation-ok (err e) h = cc

pub accepted-Checked : (env : Env) (s : PlanState) → validate env s ≡ ok tt → Checked env s
unfolding validate
accepted-Checked env s h = run_checks_sound (state_checks env s) (as_validation-ok _ h)

pub Checked-accepted : (env : Env) (s : PlanState) → Checked env s → validate env s ≡ ok tt
unfolding validate
Checked-accepted env s c = ap as_validation (run_checks_complete (state_checks env s) c)

body-Checked :
    (env : Env) (call : PlanCall) (s : PlanState) {a : Option PlanAction}
    → IsDigest env
    → Checked env s
    → Undecided s
    → (body env call s).0 ≡ ok a
    → Checked env (body env call s).1
unfolding body
body-Checked env (PlanCall.select_execution_path m r b) s {a} g c u h =
    select-Checked env s {a = a} m r b c u h
body-Checked env (PlanCall.force_plan r b) s {a} g c u h = force-Checked env s {a = a} r b h
body-Checked env (PlanCall.replace_plan i x) s {a} g c u h = replace-Checked env s i x {a = a} g c h
body-Checked env PlanCall.submit_for_execution s {a} g c u h = submit-Checked env s {a = a} c h
body-Checked env PlanCall.approve s {a} g c u h = approve-Checked env s {a = a} c h
body-Checked env PlanCall.complete s {a} g c u h = complete-Checked env s {a = a} c h
body-Checked env (PlanCall.revise t) s {a} g c u h = revise-Checked env s {a = a} c t h
body-Checked env (PlanCall.request_replan t) s {a} g c u h = replan-Checked env s {a = a} c t h
body-Checked env (PlanCall.update_step i t) s {a} g c u h = update-Checked env s {a = a} i t g c h
body-Checked env (PlanCall.cancel r) s {a} g c u h = cancel-Checked env s {a = a} c r h

-- A call that returns leaves a decided path.
body-decided :
    (env : Env) (call : PlanCall) (s : PlanState) {a : Option PlanAction}
    → Checked env s
    → (body env call s).0 ≡ ok a
    → (body env call s).1.execution_path ≢ ExecutionPath.undecided
unfolding body
body-decided env (PlanCall.select_execution_path m r b) s {a} c h =
    select-path env s {a = a} m r b h
body-decided env (PlanCall.force_plan r b) s {a} c h =
    unfold force_plan forced without_plan in ground arith
body-decided env (PlanCall.replace_plan i x) s {a} c h =
    ground (arith, replace-path env s i x {a = a} h)
body-decided env PlanCall.submit_for_execution s {a} c h =
    unfold submit_for_execution in ground arith
body-decided env PlanCall.approve s {a} c h = unfold approve in ground arith
body-decided env PlanCall.complete s {a} c h = unfold complete in ground arith
body-decided env (PlanCall.revise t) s {a} c h = unfold revise in ground arith
body-decided env (PlanCall.request_replan t) s {a} c h = unfold request_replan in ground arith
body-decided env (PlanCall.update_step i t) s {a} c h =
    ground (arith, update-path env s {a = a} i t h)
body-decided env (PlanCall.cancel r) s {a} c h = unfold cancel in ground arith

decided-Undecided : (s : PlanState) → s.execution_path ≢ ExecutionPath.undecided → Undecided s
decided-Undecided s h = ground arith

-- Whatever a method's body returns, `_record` finds a valid state.
pub body-IsValid :
    (env : Env) (call : PlanCall) (s : PlanState) {a : Option PlanAction}
    → IsDigest env
    → IsValid env s
    → (body env call s).0 ≡ ok a
    → IsValid env (body env call s).1
body-IsValid env call s {a} g v h =
    let c = accepted-Checked env s v.accepted in
    let s' = (body env call s).1 in
    record {
      accepted = Checked-accepted env s' (body-Checked env call s {a = a} g c v.undecided h);
      undecided = decided-Undecided s' (body-decided env call s {a = a} c h);
    }

pub touch-IsValid : (env : Env) (s : PlanState) → IsValid env s → IsValid env (touch env s)
touch-IsValid env s v = record {
  accepted = Checked-accepted env (touch env s) (accepted-Checked env s v.accepted);
  undecided = v.undecided;
}

-- What a caller of a method sees of what its body returned.
abbrev pub discard : Outcome PlanError (Option PlanAction) → Outcome PlanError (Unit {0})
discard (ok a) = ok tt
discard (err e) = err e

perform-ok :
    (env : Env) (call : PlanCall) (s : PlanState) {a : Option PlanAction}
    → IsDigest env
    → IsValid env s
    → (body env call s).0 ≡ ok a
    → ((perform env call s).0 ≡ ok tt) × IsValid env (perform env call s).1
unfolding perform record_transition
perform-ok env call s {a} g v h =
    let s' = (body env call s).1 in
    let v' = body-IsValid env call s {a = a} g v h in
    let t = touch-IsValid env s' v' in
    elim (Option-cases a) [
      | inl early ↦ rw (h, early) (refl, v')
      | inr (action, named) ↦ rw (h, named) (t.accepted, t)
    ]

-- From a valid state a method returns or raises as its guards say: the validation of `_record`
-- never raises, and a method that returns leaves a valid state.
pub perform-IsValid :
    (env : Env) (call : PlanCall) (s : PlanState)
    → IsDigest env
    → IsValid env s
    → ((perform env call s).0 ≡ discard (body env call s).0)
      × (IsValid env (perform env call s).1 ⊎ ((e : PlanError) × ((perform env call s).0 ≡ err e)))
perform-IsValid env call s g v = elim (Outcome-cases (body env call s).0) [
  | inl (a, h) ↦ let (p, q) = perform-ok env call s {a = a} g v h in (rw h p, inl q)
  | inr (e, h) ↦
      let p : (perform env call s).0 ≡ err e = unfold perform in rw h in (rw h p, inr (e, p))
]

pub initial-IsValid :
    (env : Env) (policy : PlanPolicy) (approval : PlanApprovalPolicy) (goal : Text)
    → IsValid env (initial env policy approval goal)
unfolding initial
initial-IsValid env policy approval goal = record {
  accepted = Checked-accepted env _ (initial-Checked env policy approval goal);
  undecided = ground arith;
}

-- The states of a controller after calls that returned.
pub data Reach (env : Env) : PlanState → Type 0 where
  start :
      (policy : PlanPolicy) (approval : PlanApprovalPolicy) (goal : Text)
      → Reach env (initial env policy approval goal)
  next :
      {s : PlanState} (call : PlanCall)
      → Reach env s
      → (perform env call s).0 ≡ ok tt
      → Reach env (perform env call s).1

pub Reach-IsValid : (env : Env) → IsDigest env → {s : PlanState} → Reach env s → IsValid env s
Reach-IsValid env g (start policy approval goal) = initial-IsValid env policy approval goal
Reach-IsValid env g (next {s = s} call r h) =
    elim (perform-IsValid env call s g (Reach-IsValid env g r)).1 [
      | inl v ↦ v
      | inr (e, raised) ↦ absurd (ground arith)
    ]
