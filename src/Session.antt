-- ===== src/Session.antt =====
-- src/runtime/session.py: the lifecycle part of AgentContext, and the controller's `_record` with
-- the session as its listener.
pub mod Files
pub mod Continuation
pub mod Frame
pub mod Fuel
pub mod Lifecycle
pub mod Tasks
pub mod Responses
pub mod Beginning
use local_coding_agent_harne.Prelude.{
  ℕ, zero, suc, ◌+◌, Bool, true, false, not, ◌&&◌, ◌||◌, Option, none, some, List, [], ◌∷◌, ◌++◌,
  Text, codes, text_eq, is_none, if◌then◌else◌, Outcome, ok, err, run_checks, Exec, pure, raise,
  lift, modify, require, require_all, ◌>>=◌, ◌>>◌, and_then,
}
use local_coding_agent_harne.Task.{
  TaskStatus, status_is, value, is_terminal_task_status, validate_task_transition,
}
use local_coding_agent_harne.Plan.Models.{
  PlanPolicy, PlanApprovalPolicy, ExecutionPath, PlanPhase, PlanError, phase_is, policy_is, path_is,
  Env, PlanState,
}
use local_coding_agent_harne.Plan.Validation.{validate}
use local_coding_agent_harne.Plan.Controller.Base.{PlanAction, Body}
use local_coding_agent_harne.Plan.Controller.{touch}
use local_coding_agent_harne.Plan.Controller.Approval.{cancel, is_cancellable}
use Files.{FileTracking}

-- Why a TaskTransitionError or a ValueError is raised; `out_of_fuel` is the model's own.
pub data SessionError : Type 0 where
  plan_error : PlanError → SessionError
  forbidden_transition awaiting_without_waiting waiting_without_awaiting : SessionError
  terminal_with_open_plan task_still_active : SessionError
  not_waiting continuation_pending empty_continuation : SessionError
  no_continuation stale_continuation unsupported_response no_fresh_continuation : SessionError
  out_of_fuel : SessionError

pub data TraceEvent : Type 0 where
  task_transition : TaskStatus → TaskStatus → Text → TraceEvent
  plan_transition : PlanAction → TraceEvent
  user_continuation user_continuation_consumed : ℕ → TraceEvent

pub record Session : Type 0 where
  pub plan_state : PlanState
  pub task : Text
  pub task_id : Option ℕ
  pub task_archived : Bool
  pub completed_tasks : List (ℕ × TaskStatus)
  pub task_sequence : ℕ
  pub task_status : TaskStatus
  pub task_waiting_reason : Option Text
  pub user_continuation_sequence : ℕ
  pub pending_user_continuation_id : Option ℕ
  pub pending_user_continuation : Option Text
  pub files : FileTracking
  pub trace : List TraceEvent

abbrev pub Action : Type 0 → Type 0
Action A = Exec SessionError Session A

abbrev pub log : TraceEvent → Action (Unit {0})
log event = modify (λ s. record s { trace = s.trace ++ event ∷ [] })

-- The text of an action.
abbrev pub action_text : PlanAction → Text
action_text PlanAction.initialized = codes "initialized"
action_text PlanAction.task_initialized = codes "task_initialized"
action_text PlanAction.selected_direct = codes "selected_direct"
action_text PlanAction.selected_plan = codes "selected_plan"
action_text PlanAction.plan_forced_by_user = codes "plan_forced_by_user"
action_text PlanAction.plan_replaced = codes "plan_replaced"
action_text PlanAction.plan_auto_authorized = codes "plan_auto_authorized"
action_text PlanAction.plan_submitted = codes "plan_submitted"
action_text PlanAction.plan_approved = codes "plan_approved"
action_text PlanAction.plan_revision_requested = codes "plan_revision_requested"
action_text PlanAction.plan_step_updated = codes "plan_step_updated"
action_text PlanAction.plan_replan_requested = codes "plan_replan_requested"
action_text PlanAction.plan_cancelled = codes "plan_cancelled"
action_text PlanAction.plan_completed = codes "plan_completed"

abbrev pub is_over : PlanPhase → Bool
is_over phase = phase_is phase PlanPhase.completed || phase_is phase PlanPhase.cancelled

abbrev pub lifecycle_faults : Session → List (Bool × SessionError)
lifecycle_faults s =
    let waiting = status_is s.task_status TaskStatus.waiting_user in
    let terminal = is_terminal_task_status s.task_status in
    let awaiting = phase_is s.plan_state.phase PlanPhase.awaiting_approval in
    (not (awaiting && not waiting && not terminal), SessionError.awaiting_without_waiting)
    ∷ (not (waiting && not awaiting), SessionError.waiting_without_awaiting)
    ∷ (
      not (
          terminal
          && path_is s.plan_state.execution_path ExecutionPath.plan
          && not (is_over s.plan_state.phase)),
      SessionError.terminal_with_open_plan,
    )
    ∷ []

unfoldable pub validate_lifecycle_invariants : Action (Unit {0})
validate_lifecycle_invariants s =
    if is_none s.task_id then (ok tt, s) else (run_checks (lifecycle_faults s), s)

abbrev pub text_option_eq : Option Text → Option Text → Bool
text_option_eq none none = true
text_option_eq (some a) (some b) = text_eq a b
text_option_eq _ _ = false

-- The arguments of `transition_task`; the snapshot that it may persist is not modelled.
pub record Transition : Type 0 where
  pub status : TaskStatus
  pub trigger : Text
  pub waiting_reason : Option Text
  pub new_task : Bool

abbrev pub to_status : TaskStatus → Text → Option Text → Transition
to_status status trigger reason = record {
  status = status;
  trigger = trigger;
  waiting_reason = reason;
  new_task = false;
}

module _ (env : Env) where
  -- A controller's method in a session: its body, then `_record` with the listener.
  abbrev pub record_plan : (PlanAction → Action (Unit {0})) → PlanAction → Action (Unit {0})
  record_plan listener action s =
      let plan = touch env s.plan_state in
      let s' = record s { plan_state = plan } in
      elim (validate env plan) [
        | err e ↦ (err (SessionError.plan_error e), s')
        | ok u ↦ (listener action >> log (TraceEvent.plan_transition action)) s'
      ]

  abbrev pub finish_plan :
      (PlanAction → Action (Unit {0})) → Outcome PlanError (Option PlanAction) → Action (Unit {0})
  finish_plan listener (err e) s = (err (SessionError.plan_error e), s)
  finish_plan listener (ok none) s = (ok tt, s)
  finish_plan listener (ok (some action)) s = record_plan listener action s

  unfoldable pub plan_method : (PlanAction → Action (Unit {0})) → Body → Action (Unit {0})
  plan_method listener body s =
      let (result, plan) = body s.plan_state in
      finish_plan listener result (record s { plan_state = plan })

  -- `on_plan_transition`, over the `transition_task` that it calls.
  abbrev pub react : (Transition → Action (Unit {0})) → PlanAction → Action (Unit {0})
  react transition action s =
      let phase = s.plan_state.phase in
      let trigger = action_text action in
      if phase_is phase PlanPhase.awaiting_approval
      then transition (to_status TaskStatus.waiting_user trigger (some (codes "plan_approval"))) s
      else if (phase_is phase PlanPhase.planning || phase_is phase PlanPhase.executing)
          && status_is s.task_status TaskStatus.waiting_user
      then transition (to_status TaskStatus.running trigger none) s
      else if phase_is phase PlanPhase.cancelled && not (is_terminal_task_status s.task_status)
      then transition (to_status TaskStatus.cancelled trigger none) s
      else (ok tt, s)

  unfoldable pub on_plan_transition :
      (Transition → Action (Unit {0})) → PlanAction → Action (Unit {0})
  on_plan_transition transition action s =
      if is_none s.task_id
      then (ok tt, s)
      else (react transition action >> validate_lifecycle_invariants) s

  -- The reason that `_synchronize_terminal_plan` gives.
  abbrev pub terminal_reason : Transition → Text
  terminal_reason t = codes "Task became " ++ value t.status ++ codes ": " ++ t.trigger

  abbrev pub is_synchronized : TaskStatus → PlanState → Bool
  is_synchronized status plan =
      (status_is status TaskStatus.cancelled || status_is status TaskStatus.failed)
      && path_is plan.execution_path ExecutionPath.plan
      && is_cancellable plan.phase

  unfoldable pub synchronize_terminal_plan :
      (PlanAction → Action (Unit {0})) → Transition → Action (Unit {0})
  synchronize_terminal_plan listener t s =
      if is_synchronized t.status s.plan_state
      then plan_method listener (cancel (some (terminal_reason t))) s
      else (ok tt, s)

  abbrev pub set_status : Transition → Session → Session
  set_status t s = record s {
    task_status = t.status;
    task_waiting_reason =
        if status_is t.status TaskStatus.waiting_user then t.waiting_reason else none;
  }

  abbrev pub is_same : Transition → Session → Bool
  is_same t s =
      status_is s.task_status t.status && text_option_eq s.task_waiting_reason t.waiting_reason

  -- `transition_task` and the controller's `cancel` call one another: the fuel bounds how deep.
  unfoldable pub transition_task : ℕ → Transition → Action (Unit {0})
  transition_task zero t s = (err SessionError.out_of_fuel, s)
  transition_task (suc fuel) t s =
      let before = s.task_status in
      let inner = synchronize_terminal_plan (on_plan_transition (transition_task fuel)) t in
      if not (validate_task_transition before t.status t.new_task)
      then (err SessionError.forbidden_transition, s)
      else if is_same t s
      then (ok tt, s)
      else (log (TraceEvent.task_transition before t.status t.trigger)
            >> inner
            >> validate_lifecycle_invariants)
          (set_status t s)
