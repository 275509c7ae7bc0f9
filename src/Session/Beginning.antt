-- ===== src/Session/Beginning.antt =====
-- The beginning of a task: `begin_task` of src/runtime/session.py.
use local_coding_agent_harne.Prelude.{
  ◌≡◌, ◌≢◌, refl, sym, ap, ◌∙◌, ℕ, ◌+◌, true, false, not, ◌&&◌, none, some, List, [], ◌∷◌, ◌++◌,
  if◌then◌else◌, Text, Outcome, ok, is_none, arith,
}
use local_coding_agent_harne.Task.{TaskStatus, is_terminal_task_status, validate_task_transition}
use local_coding_agent_harne.Plan.Models.{
  PlanPhase, PlanState, phase_is, ExecutionPath, PlanPolicy, PlanApprovalPolicy, Env,
}
use local_coding_agent_harne.Plan.Validation.{initial, validate}
use local_coding_agent_harne.Plan.Controller.{touch}
use local_coding_agent_harne.Plan.Controller.Base.{PlanAction}
use local_coding_agent_harne.Plan.Controller.Selection.{reset}
use local_coding_agent_harne.Plan.Invariant.Calls.{initial-IsValid}
use local_coding_agent_harne.Session.{
  SessionError, Session, validate_lifecycle_invariants, transition_task, synchronize_terminal_plan,
  plan_method, on_plan_transition, record_plan,
}
use local_coding_agent_harne.Session.Files.{has_task_mutations, reset_task_files}
use local_coding_agent_harne.Session.Frame.{
  Keeps, frame, plan_method-Keeps, transition_task-Keeps, listener-Keeps,
}
use local_coding_agent_harne.Session.Tasks.{
  listener, is_active, with_task, archive_terminal_task, reset_task_state, begin_task, task_started,
  last_five,
}
use local_coding_agent_harne.Session.Lifecycle.{
  IsConsistent, IsSettled, Follows, plan_method-IsSettled,
}

-- A task can begin: none is active, and the last plan does not await its approval.
pub record IsReady (s : Session) : Type 0 where
  pub inactive : is_active s ≡ false
  pub status : s.task_status ≢ TaskStatus.waiting_user
  pub phase : s.plan_state.phase ≢ PlanPhase.awaiting_approval

-- A terminal session that is settled can begin a task.
pub settled-IsReady :
    (env : Env) (s : Session)
    → IsSettled env s
    → is_terminal_task_status s.task_status ≡ true
    → s.plan_state.execution_path ≡ ExecutionPath.plan
    → IsReady s
settled-IsReady env s v t p = record {
  inactive = ground arith;
  status = ground arith;
  phase = let c = v.consistent in let q = v.task in ground arith;
}

-- The session with which the transition to running is called.
abbrev prepared : Text → Session → Session
prepared task s = reset_task_state (with_task task (archive_terminal_task s))

abbrev begun : Env → Text → Session → Session
begun env task s = (transition_task env 1 task_started (prepared task s)).1

-- What the transition to running leaves.
record IsBegun (s : Session) (r : Outcome SessionError (Unit {0})) (s' : Session) : Type 0 where
  returns : r ≡ ok tt
  runs : s'.task_status ≡ TaskStatus.running
  same : s'.plan_state ≡ s.plan_state
  task : s'.task_id ≡ s.task_id

transition_task-IsBegun :
    (env : Env) (s : Session)
    → s.task_status ≢ TaskStatus.waiting_user
    → s.plan_state.phase ≢ PlanPhase.awaiting_approval
    → IsBegun s (transition_task env 1 task_started s).0 (transition_task env 1 task_started s).1
unfolding transition_task validate_task_transition synchronize_terminal_plan
    validate_lifecycle_invariants
transition_task-IsBegun env s w p = record {
  returns = ground arith;
  runs = ground arith;
  same = ground arith;
  task = ground arith;
}

prepared-same :
    (task : Text) (s : Session)
    → ((prepared task s).task_status ≡ s.task_status)
      × ((prepared task s).plan_state ≡ s.plan_state)
      × (is_none (prepared task s).task_id ≡ false)
unfolding archive_terminal_task reset_task_state
prepared-same task s = ground arith

off-IsConsistent :
    (env : Env) (approval : PlanApprovalPolicy) (task : Text) (s : Session)
    → s.task_status ≡ TaskStatus.running
    → IsConsistent (record s { plan_state = initial env PlanPolicy.off approval task })
unfolding initial
off-IsConsistent env approval task s r = ground arith

-- The reset of the plan under each policy.
reset-IsSettled :
    (env : Env) (policy : PlanPolicy) (approval : PlanApprovalPolicy) (task : Text) (s : Session)
    → s.task_status ≡ TaskStatus.running
    → is_none s.task_id ≡ false
    → ((plan_method env (listener env) (reset env policy approval task) s).0 ≡ ok tt)
      × IsSettled env (plan_method env (listener env) (reset env policy approval task) s).1
unfolding reset
reset-IsSettled env PlanPolicy.off approval task s r t =
    unfold plan_method in
    (
      refl,
      record {
        plan = initial-IsValid env PlanPolicy.off approval task;
        task = t;
        consistent = off-IsConsistent env approval task s r;
      },
    )
reset-IsSettled env PlanPolicy.auto approval task s r t =
    plan_method-IsSettled env (reset env PlanPolicy.auto approval task) s
      PlanAction.task_initialized refl (initial-IsValid env _ _ _) t (Follows.runs r)
reset-IsSettled env PlanPolicy.required approval task s r t =
    plan_method-IsSettled env (reset env PlanPolicy.required approval task) s
      PlanAction.task_initialized refl (initial-IsValid env _ _ _) t (Follows.runs r)

-- The archive of finished tasks with the task of the session, if it is over and not in it yet.
abbrev pub with_finished : Session → List (ℕ × TaskStatus)
with_finished s = elim s.task_id [
  | none ↦ s.completed_tasks
  | some k ↦
      if is_terminal_task_status s.task_status && not s.task_archived
      then last_five (s.completed_tasks ++ (k, s.task_status) ∷ [])
      else s.completed_tasks
]

-- The new task runs under its own number and text, with a fresh plan for it; the last one is in the
-- archive; and nothing is left of the last one's files and of an answer of the user.
pub record HasBegun (env : Env) (policy : PlanPolicy) (approval : PlanApprovalPolicy) (task : Text)
    (s s' : Session) : Type 0 where
  pub runs : s'.task_status ≡ TaskStatus.running
  pub plan : s'.plan_state ≡ initial env policy approval task
  pub task_text : s'.task ≡ task
  pub task_id : s'.task_id ≡ some (s.task_sequence + 1)
  pub task_sequence : s'.task_sequence ≡ s.task_sequence + 1
  pub unarchived : s'.task_archived ≡ false
  pub archive : s'.completed_tasks ≡ with_finished s
  pub changed : s'.files.task_changed_files ≡ []
  pub created : s'.files.task_created_files ≡ []
  pub deleted : s'.files.task_deleted_files ≡ []
  pub unmutated : has_task_mutations s'.files ≡ false
  pub pending_id : s'.pending_user_continuation_id ≡ none
  pub pending : s'.pending_user_continuation ≡ none

record_plan-runs :
    (env : Env) (plan : PlanState) (s : Session)
    → s.task_status ≡ TaskStatus.running
    → phase_is plan.phase PlanPhase.awaiting_approval ≡ false
    → phase_is plan.phase PlanPhase.cancelled ≡ false
    → validate env (touch env plan) ≡ ok tt
    → let s' =
        (record_plan env
          (listener env)
          PlanAction.task_initialized
          (record s { plan_state = plan })).1 in
      (s'.task_status ≡ TaskStatus.running) × (s'.plan_state ≡ touch env plan)
unfolding on_plan_transition validate_lifecycle_invariants
record_plan-runs env plan s r a c v = ground arith

reset-plan :
    (env : Env) (policy : PlanPolicy) (approval : PlanApprovalPolicy) (task : Text) (s : Session)
    → s.task_status ≡ TaskStatus.running
    → let s' = (plan_method env (listener env) (reset env policy approval task) s).1 in
      (s'.task_status ≡ TaskStatus.running) × (s'.plan_state ≡ initial env policy approval task)
unfolding reset plan_method initial
reset-plan env PlanPolicy.off approval task s r = (r, refl)
reset-plan env PlanPolicy.auto approval task s r =
    record_plan-runs env (initial env PlanPolicy.auto approval task) s r refl refl
      (initial-IsValid env PlanPolicy.auto approval task).accepted
reset-plan env PlanPolicy.required approval task s r =
    record_plan-runs env (initial env PlanPolicy.required approval task) s r refl refl
      (initial-IsValid env PlanPolicy.required approval task).accepted

-- What the frame of the last session tells.
frame-HasBegun :
    (env : Env) (policy : PlanPolicy) (approval : PlanApprovalPolicy) (task : Text) (s s' : Session)
    → frame s' ≡ frame (prepared task s)
    → s'.task_status ≡ TaskStatus.running
    → s'.plan_state ≡ initial env policy approval task
    → HasBegun env policy approval task s s'
unfolding archive_terminal_task reset_task_state reset_task_files
frame-HasBegun env policy approval task s s' f r p = record {
  runs = r;
  plan = p;
  task_text = ap (λ x. x.task) f ∙ ground arith;
  task_id = ap (λ x. x.task_id) f ∙ ground arith;
  task_sequence = ap (λ x. x.task_sequence) f ∙ ground arith;
  unarchived = ap (λ x. x.task_archived) f ∙ ground arith;
  archive = ap (λ x. x.completed_tasks) f ∙ ground arith;
  changed = ap (λ x. x.files.task_changed_files) f ∙ ground arith;
  created = ap (λ x. x.files.task_created_files) f ∙ ground arith;
  deleted = ap (λ x. x.files.task_deleted_files) f ∙ ground arith;
  unmutated = ap (λ x. has_task_mutations x.files) f ∙ ground arith;
  pending_id = ap (λ x. x.pending_id) f ∙ ground arith;
  pending = ap (λ x. x.pending) f ∙ ground arith;
}

-- A session that is ready begins every task: no guard or listener refuses it, the session that it
-- leaves is settled, and the task has begun in it: it runs, its plan is the initial one for it, the
-- last task is archived, and the records of that task are cleared.
pub begin_task-IsSettled :
    (env : Env) (policy : PlanPolicy) (approval : PlanApprovalPolicy) (task : Text) (s : Session)
    → IsReady s
    → ((begin_task env policy approval task s).0 ≡ ok tt)
      × IsSettled env (begin_task env policy approval task s).1
      × HasBegun env policy approval task s (begin_task env policy approval task s).1
unfolding begin_task Keeps
begin_task-IsSettled env policy approval task s ready =
    let (status, plan, some_task) = prepared-same task s in
    let b =
      transition_task-IsBegun env (prepared task s) (λ e. ready.status (sym status ∙ e))
        (λ e. ready.phase (sym (ap (λ p. p.phase) plan) ∙ e)) in
    let r =
      reset-IsSettled env policy approval task (begun env task s) b.runs
        (ap is_none b.task ∙ some_task) in
    let (running, planned) = reset-plan env policy approval task (begun env task s) b.runs in
    let kept =
      plan_method-Keeps env (listener env) (reset env policy approval task) (listener-Keeps env)
        (begun env task s)
      ∙ transition_task-Keeps env 1 task_started (prepared task s) in
    rw (ready.inactive, b.returns)
      (r.0, r.1, frame-HasBegun env policy approval task s _ kept running planned)
