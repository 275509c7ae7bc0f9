-- ===== src/Session/Lifecycle.antt =====
-- The plan's methods in a session: plan and task status together (src/runtime/session.py).
use local_coding_agent_harne.Prelude.{
  ◌≡◌, ◌≢◌, ◌⊎◌, refl, sym, ap, ◌∙◌, subst, false, Option, none, some, ok, run_checks, is_none,
  arith, Option-cases, inl, inr,
}
use local_coding_agent_harne.Task.{TaskStatus, validate_task_transition}
use local_coding_agent_harne.Plan.Models.{PlanPhase, Env, PlanState}
use local_coding_agent_harne.Plan.Validation.{validate}
use local_coding_agent_harne.Plan.Controller.Base.{PlanAction, Body}
use local_coding_agent_harne.Plan.Controller.{PlanCall, body, touch}
use local_coding_agent_harne.Plan.Controller.Selection.{
  select_execution_path, force_plan, forced, without_plan, with_selection,
}
use local_coding_agent_harne.Plan.Controller.Drafting.{replace_plan, submit_for_execution}
use local_coding_agent_harne.Plan.Controller.Approval.{approve, revise, cancel}
use local_coding_agent_harne.Plan.Controller.Progress.{
  update_step, change_step, request_replan, complete,
}
use local_coding_agent_harne.Plan.Invariant.Methods.{IsDigest}
use local_coding_agent_harne.Plan.Invariant.Calls.{IsValid, body-IsValid, touch-IsValid}
use local_coding_agent_harne.Session.{
  Session, TraceEvent, Action, log, lifecycle_faults, validate_lifecycle_invariants,
  on_plan_transition, transition_task, synchronize_terminal_plan, plan_method, record_plan,
}
use local_coding_agent_harne.Session.Tasks.{plan_call, listener}
use local_coding_agent_harne.Session.Frame.{Keeps, listener-Keeps}

-- `validate_lifecycle_invariants` accepts the session.
abbrev pub IsConsistent : Session → Type 0
IsConsistent s = run_checks (lifecycle_faults s) ≡ ok tt

-- The task runs, or waits and the plan has left its approval.
pub data Follows (s : Session) : Type 0 where
  runs : s.task_status ≡ TaskStatus.running → Follows s
  leaves :
      s.task_status ≡ TaskStatus.waiting_user
      → (s.plan_state.phase ≡ PlanPhase.planning)
        ⊎ (s.plan_state.phase ≡ PlanPhase.executing)
        ⊎ (s.plan_state.phase ≡ PlanPhase.cancelled)
      → Follows s

-- The action returns, with the same plan and a consistent session.
abbrev pub Settles : Action (Unit {0}) → Session → Type 0
Settles m s = ((m s).0 ≡ ok tt) × ((m s).1.plan_state ≡ s.plan_state) × IsConsistent (m s).1

pub listener-Settles :
    (env : Env) (a : PlanAction) (s : Session)
    → is_none s.task_id ≡ false
    → Follows s
    → Settles (listener env a) s
unfolding on_plan_transition transition_task validate_lifecycle_invariants synchronize_terminal_plan
    validate_task_transition
listener-Settles env a s t (runs r) = ground arith
listener-Settles env a s t (leaves w p) = ground arith

-- A body that returns without an action leaves the plan as it was.
body-early :
    (env : Env) (call : PlanCall) (s : PlanState)
    → (body env call s).0 ≡ ok none
    → (body env call s).1 ≡ s
unfolding body
body-early env (PlanCall.select_execution_path m r b) s h =
    unfold select_execution_path with_selection in ground arith
body-early env (PlanCall.force_plan r b) s h = unfold force_plan forced without_plan in ground arith
body-early env (PlanCall.replace_plan i x) s h = unfold replace_plan in ground arith
body-early env PlanCall.submit_for_execution s h = unfold submit_for_execution in ground arith
body-early env PlanCall.approve s h = unfold approve in ground arith
body-early env PlanCall.complete s h = unfold complete in ground arith
body-early env (PlanCall.revise t) s h = unfold revise in ground arith
body-early env (PlanCall.request_replan t) s h = unfold request_replan in ground arith
body-early env (PlanCall.update_step i t) s h = unfold update_step change_step in ground arith
body-early env (PlanCall.cancel r) s h = unfold cancel in ground arith

-- A body that returns in the phase of the approval leaves that phase.
body-leaves :
    (env : Env) (call : PlanCall) (s : PlanState) {a : Option PlanAction}
    → s.phase ≡ PlanPhase.awaiting_approval
    → (body env call s).0 ≡ ok a
    → (a ≢ none)
      × (((body env call s).1.phase ≡ PlanPhase.planning)
          ⊎ ((body env call s).1.phase ≡ PlanPhase.executing)
          ⊎ ((body env call s).1.phase ≡ PlanPhase.cancelled))
unfolding body
body-leaves env (PlanCall.select_execution_path m r b) s p h =
    unfold select_execution_path with_selection in ground arith
body-leaves env (PlanCall.force_plan r b) s p h =
    unfold force_plan forced without_plan in ground arith
body-leaves env (PlanCall.replace_plan i x) s p h = unfold replace_plan in ground arith
body-leaves env PlanCall.submit_for_execution s p h = unfold submit_for_execution in ground arith
body-leaves env PlanCall.approve s p h = unfold approve in ground arith
body-leaves env PlanCall.complete s p h = unfold complete in ground arith
body-leaves env (PlanCall.revise t) s p h = unfold revise in ground arith
body-leaves env (PlanCall.request_replan t) s p h = unfold request_replan in ground arith
body-leaves env (PlanCall.update_step i t) s p h = unfold update_step in ground arith
body-leaves env (PlanCall.cancel r) s p h = unfold cancel in ground arith

-- A session that has a task, with a valid plan and a consistent lifecycle.
pub record IsSettled (env : Env) (s : Session) : Type 0 where
  pub plan : IsValid env s.plan_state
  pub task : is_none s.task_id ≡ false
  pub consistent : IsConsistent s

pub data IsActive (s : Session) : Type 0 where
  running : s.task_status ≡ TaskStatus.running → IsActive s
  waiting : s.task_status ≡ TaskStatus.waiting_user → IsActive s

abbrev with_body : Body → Session → Session
with_body b s = record s { plan_state = (b s.plan_state).1 }

abbrev with_touched : Env → Body → Session → Session
with_touched env b s = record s { plan_state = touch env (b s.plan_state).1 }

waiting-phase :
    (s : Session)
    → is_none s.task_id ≡ false
    → IsConsistent s
    → s.task_status ≡ TaskStatus.waiting_user
    → s.plan_state.phase ≡ PlanPhase.awaiting_approval
waiting-phase s t c w = ground arith

active-Follows :
    (env : Env) (call : PlanCall) (s : Session) {a : Option PlanAction}
    → IsSettled env s
    → IsActive s
    → (body env call s.plan_state).0 ≡ ok a
    → Follows (with_touched env (body env call) s)
active-Follows env call s v (running r) h = runs r
active-Follows env call s {a} v (waiting w) h =
    leaves w (body-leaves env call s.plan_state {a = a} (waiting-phase s v.task v.consistent w) h).1

record_plan-ok :
    (env : Env) (f : PlanAction → Action (Unit {0})) (action : PlanAction) (s : Session)
    → validate env (touch env s.plan_state) ≡ ok tt
    → (f action (record s { plan_state = touch env s.plan_state })).0 ≡ ok tt
    → record_plan env f action s ≡ (
      ok tt,
      (log
          (TraceEvent.plan_transition action)
          (f action (record s { plan_state = touch env s.plan_state })).1).1,
    )
record_plan-ok env f action s v l = ground arith

-- What a method does in a session once its body has returned.
plan_method-recorded :
    (env : Env) (b : Body) (s : Session) (action : PlanAction)
    → (b s.plan_state).0 ≡ ok (some action)
    → validate env (touch env (b s.plan_state).1) ≡ ok tt
    → (listener env action (with_touched env b s)).0 ≡ ok tt
    → plan_method env (listener env) b s ≡ (
      ok tt,
      (log (TraceEvent.plan_transition action) (listener env action (with_touched env b s)).1).1,
    )
unfolding plan_method
plan_method-recorded env b s action h v l =
    rw h (record_plan-ok env (listener env) action (with_body b s) v l)

plan_call-early :
    (env : Env) (call : PlanCall) (s : Session)
    → (body env call s.plan_state).0 ≡ ok none
    → plan_call env call s ≡ (ok tt, s)
unfolding plan_call plan_method
plan_call-early env call s h = rw (h, body-early env call s.plan_state h) refl

listener-IsSettled :
    (env : Env) (action : PlanAction) (s : Session)
    → IsValid env s.plan_state
    → is_none s.task_id ≡ false
    → Follows s
    → ((listener env action s).0 ≡ ok tt)
      × IsSettled env (log (TraceEvent.plan_transition action) (listener env action s).1).1
unfolding Keeps
listener-IsSettled env action s plan task follows =
    let (l, same, consistent) = listener-Settles env action s task follows in
    (
      l,
      record {
        plan = subst (IsValid env) (sym same) plan;
        task = ap (λ f. is_none f.task_id) (listener-Keeps env action s) ∙ task;
        consistent = consistent;
      },
    )

pub plan_method-IsSettled :
    (env : Env) (b : Body) (s : Session) (action : PlanAction)
    → (b s.plan_state).0 ≡ ok (some action)
    → IsValid env (b s.plan_state).1
    → is_none s.task_id ≡ false
    → Follows (with_touched env b s)
    → ((plan_method env (listener env) b s).0 ≡ ok tt)
      × IsSettled env (plan_method env (listener env) b s).1
plan_method-IsSettled env b s action h v task follows =
    let plan = touch-IsValid env _ v in
    let (l, settled) = listener-IsSettled env action (with_touched env b s) plan task follows in
    rw (plan_method-recorded env b s action h plan.accepted l) (refl, settled)

-- From a settled session whose task runs or waits, a plan method whose guards let it return does
-- return, and leaves the session settled: no transition that its listener makes is refused.
pub plan_call-IsSettled :
    (env : Env) (call : PlanCall) (s : Session) {a : Option PlanAction}
    → IsDigest env
    → IsSettled env s
    → IsActive s
    → (body env call s.plan_state).0 ≡ ok a
    → ((plan_call env call s).0 ≡ ok tt) × IsSettled env (plan_call env call s).1
unfolding plan_call
plan_call-IsSettled env call s {a} g v active h = elim (Option-cases a) [
  | inl early ↦ rw (plan_call-early env call s (h ∙ ap ok early)) (refl, v)
  | inr (action, named) ↦
      plan_method-IsSettled env (body env call) s action (h ∙ ap ok named)
        (body-IsValid env call s.plan_state {a = a} g v.plan h) v.task
        (active-Follows env call s {a = a} v active h)
]
