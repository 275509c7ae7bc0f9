-- ===== src/Session/Fuel.antt =====
-- The depth to which `transition_task` and the plan's `cancel` call one another
-- (src/runtime/session.py).
use local_coding_agent_harne.Prelude.{
  [], ◌∷◌, ◌++◌, ℕ, suc, ◌≡◌, refl, true, Option, none, some, Text, ok, arith, Outcome-cases, inl,
  inr,
}
use local_coding_agent_harne.Task.{is_terminal_task_status}
use local_coding_agent_harne.Plan.Models.{PlanPhase, Env, PlanState}
use local_coding_agent_harne.Plan.Controller.Base.{PlanAction}
use local_coding_agent_harne.Plan.Controller.Approval.{cancel}
use local_coding_agent_harne.Plan.Controller.{touch}
use local_coding_agent_harne.Session.{
  TraceEvent, Session, Transition, Action, on_plan_transition, plan_method, record_plan,
  synchronize_terminal_plan, transition_task, set_status, terminal_reason,
}

abbrev logged : TraceEvent → Session → Session
logged event s = record s { trace = s.trace ++ event ∷ [] }

abbrev touched : Env → Session → Session
touched env s = record s { plan_state = touch env s.plan_state }

-- A cancelled plan and a terminal task: the listener makes no transition.
listener-same :
    (env : Env) (f g : Transition → Action (Unit {0})) (a : PlanAction) (s : Session)
    → s.plan_state.phase ≡ PlanPhase.cancelled
    → is_terminal_task_status s.task_status ≡ true
    → on_plan_transition env f a s ≡ on_plan_transition env g a s
unfolding on_plan_transition
listener-same env f g a s p t = ground arith

cancel-phase :
    (reason : Option Text) (s : PlanState) {a : Option PlanAction}
    → (cancel reason s).0 ≡ ok a
    → (cancel reason s).1.phase ≡ PlanPhase.cancelled
unfolding cancel
cancel-phase reason s h = ground arith

record_plan-same :
    (env : Env) (f g : PlanAction → Action (Unit {0})) (a : PlanAction) (s : Session)
    → f a (touched env s) ≡ g a (touched env s)
    → record_plan env f a s ≡ record_plan env g a s
record_plan-same env f g a s h = ground arith

cancel-same :
    (env : Env) (f g : Transition → Action (Unit {0})) (reason : Option Text) (s : Session)
    → is_terminal_task_status s.task_status ≡ true
    → plan_method env (on_plan_transition env f) (cancel reason) s
      ≡ plan_method env (on_plan_transition env g) (cancel reason) s
unfolding plan_method
cancel-same env f g reason s t = elim (Outcome-cases (cancel reason s.plan_state).0) [
  | inr (e, h) ↦ rw h
  | inl (none, h) ↦ rw h
  | inl (some a, h) ↦
      let cancelled = record s { plan_state = (cancel reason s.plan_state).1 } in
      let p = cancel-phase reason s.plan_state {a = some a} h in
      rw h (
        record_plan-same env (on_plan_transition env f) (on_plan_transition env g) a cancelled
          (listener-same env f g a (touched env cancelled) p t))
]

synchronize-same :
    (env : Env) (f g : Transition → Action (Unit {0})) (t : Transition) (s : Session)
    → s.task_status ≡ t.status
    → synchronize_terminal_plan env (on_plan_transition env f) t s
      ≡ synchronize_terminal_plan env (on_plan_transition env g) t s
unfolding synchronize_terminal_plan
synchronize-same env f g t s h =
    ground (arith, cancel-same env f g (some (terminal_reason env t)) s)

-- One level of fuel is enough for `transition_task`: more gives the same result and the same
-- session.
pub transition_task-fuel :
    (env : Env) (fuel : ℕ) (t : Transition) (s : Session)
    → transition_task env (suc fuel) t s ≡ transition_task env 1 t s
unfolding transition_task
transition_task-fuel env fuel t s =
    rw
      (synchronize-same env (transition_task env fuel) (transition_task env 0) t
        (logged (TraceEvent.task_transition s.task_status t.status t.trigger) (set_status env t s))
        refl)
      refl
