-- ===== src/Session/Frame.antt =====
-- The part of a session (src/runtime/session.py) that its plan methods and task transitions do not
-- write.
use local_coding_agent_harne.Prelude.{
  ℕ, zero, suc, ◌≡◌, refl, ◌∙◌, Bool, Option, none, some, List, Text, arith, Outcome-cases, inl,
  inr, ◌>>◌,
}
use local_coding_agent_harne.Task.{TaskStatus}
use local_coding_agent_harne.Plan.Models.{Env}
use local_coding_agent_harne.Plan.Controller.Base.{PlanAction, Body}
use local_coding_agent_harne.Plan.Controller.Approval.{cancel}
use local_coding_agent_harne.Plan.Controller.{PlanCall, body, touch}
use local_coding_agent_harne.Session.Files.{FileTracking}
use local_coding_agent_harne.Session.{
  TraceEvent, Session, Transition, Action, log, validate_lifecycle_invariants, on_plan_transition,
  react, plan_method, record_plan, synchronize_terminal_plan, transition_task, set_status,
  terminal_reason,
}
use local_coding_agent_harne.Session.Tasks.{plan_call, listener}

-- Every field of a session but its plan, its task's status and its waiting reason, and its trace.
pub record Frame : Type 0 where
  pub task : Text
  pub task_id : Option ℕ
  pub task_archived : Bool
  pub completed_tasks : List (ℕ × TaskStatus)
  pub task_sequence : ℕ
  pub user_continuation_sequence : ℕ
  pub pending_id : Option ℕ
  pub pending : Option Text
  pub files : FileTracking

abbrev pub frame : Session → Frame
frame s = record {
  task = s.task;
  task_id = s.task_id;
  task_archived = s.task_archived;
  completed_tasks = s.completed_tasks;
  task_sequence = s.task_sequence;
  user_continuation_sequence = s.user_continuation_sequence;
  pending_id = s.pending_user_continuation_id;
  pending = s.pending_user_continuation;
  files = s.files;
}

-- An action keeps the frame, whatever its outcome.
unfoldable pub Keeps {ℓ} : {A : Type ℓ} → (Session → A × Session) → Type 0
Keeps m = (s : Session) → frame (m s).1 ≡ frame s

>>-Keeps : (m n : Action (Unit {0})) → Keeps m → Keeps n → Keeps (m >> n)
unfolding Keeps
>>-Keeps m n h k s = elim (Outcome-cases (m s).0) [
  | inl (a, p) ↦ rw p (k (m s).1 ∙ h s)
  | inr (e, p) ↦ rw p (h s)
]

validate_lifecycle_invariants-Keeps : Keeps validate_lifecycle_invariants
unfolding Keeps validate_lifecycle_invariants
validate_lifecycle_invariants-Keeps s = ground arith

log-Keeps : (event : TraceEvent) → Keeps (log event)
unfolding Keeps
log-Keeps event s = refl

module _ (env : Env) where
  record_plan-Keeps :
      (f : PlanAction → Action (Unit {0})) (a : PlanAction)
      → Keeps (f a)
      → Keeps (record_plan env f a)
  unfolding Keeps
  record_plan-Keeps f a h s = ground (
    arith,
    >>-Keeps (f a) (log (TraceEvent.plan_transition a)) h (log-Keeps (TraceEvent.plan_transition a))
        (record s { plan_state = touch env s.plan_state }),
  )

  pub plan_method-Keeps :
      (f : PlanAction → Action (Unit {0})) (b : Body)
      → ((a : PlanAction) → Keeps (f a))
      → Keeps (plan_method env f b)
  unfolding Keeps plan_method
  plan_method-Keeps f b h s = elim (Outcome-cases (b s.plan_state).0) [
    | inr (e, p) ↦ rw p refl
    | inl (none, p) ↦ rw p refl
    | inl (some a, p) ↦
        rw p (record_plan-Keeps f a (h a) (record s { plan_state = (b s.plan_state).1 }))
  ]

  react-Keeps :
      (f : Transition → Action (Unit {0})) (a : PlanAction)
      → ((t : Transition) → Keeps (f t))
      → Keeps (react env f a)
  unfolding Keeps
  react-Keeps f a h s = grind (arith, h)

  on_plan_transition-Keeps :
      (f : Transition → Action (Unit {0})) (a : PlanAction)
      → ((t : Transition) → Keeps (f t))
      → Keeps (on_plan_transition env f a)
  unfolding Keeps on_plan_transition
  on_plan_transition-Keeps f a h s = ground (
    arith,
    >>-Keeps (react env f a) validate_lifecycle_invariants (react-Keeps f a h)
        validate_lifecycle_invariants-Keeps s,
  )

  synchronize-Keeps :
      (f : PlanAction → Action (Unit {0})) (t : Transition)
      → ((a : PlanAction) → Keeps (f a))
      → Keeps (synchronize_terminal_plan env f t)
  unfolding Keeps synchronize_terminal_plan
  synchronize-Keeps f t h s =
      ground (arith, plan_method-Keeps f (cancel (some (terminal_reason env t))) h s)

  pub transition_task-Keeps : (fuel : ℕ) (t : Transition) → Keeps (transition_task env fuel t)
  unfolding Keeps transition_task
  transition_task-Keeps zero t s = refl
  transition_task-Keeps (suc fuel) t s =
      let event = TraceEvent.task_transition s.task_status t.status t.trigger in
      let f = on_plan_transition env (transition_task env fuel) in
      let inner =
        synchronize-Keeps f t (λ a.
          on_plan_transition-Keeps (transition_task env fuel) a (transition_task-Keeps fuel)) in
      ground (
        arith,
        >>-Keeps (log event >> synchronize_terminal_plan env f t) validate_lifecycle_invariants
            (>>-Keeps (log event) (synchronize_terminal_plan env f t) (log-Keeps event) inner)
            validate_lifecycle_invariants-Keeps (set_status env t s),
      )

  pub listener-Keeps : (a : PlanAction) → Keeps (listener env a)
  listener-Keeps a = on_plan_transition-Keeps (transition_task env 1) a (transition_task-Keeps 1)

  -- A plan method changes no field of a session but its plan, its task's status with the waiting
  -- reason, and its trace, whether it returns or raises.
  pub plan_call-Keeps : (call : PlanCall) → Keeps (plan_call env call)
  unfolding plan_call
  plan_call-Keeps call = plan_method-Keeps (listener env) (body env call) listener-Keeps
