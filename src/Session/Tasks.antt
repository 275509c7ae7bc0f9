-- ===== src/Session/Tasks.antt =====
-- src/runtime/session.py: begin_task, archive_terminal_task and reset_task_state, and the plan
-- controller's methods as the session's listener completes them.
use local_coding_agent_harne.Prelude.{
  ℕ, ◌+◌, Bool, true, false, not, ◌&&◌, ◌||◌, Option, none, some, List, [], ◌∷◌, ◌++◌, reverse,
  take, Text, codes, is_none, if◌then◌else◌, err, ◌>>◌,
}
use local_coding_agent_harne.Task.{TaskStatus, is_terminal_task_status}
use local_coding_agent_harne.Plan.Models.{PlanPolicy, PlanApprovalPolicy, Env}
use local_coding_agent_harne.Plan.Controller.{PlanCall, body}
use local_coding_agent_harne.Plan.Controller.Base.{PlanAction}
use local_coding_agent_harne.Plan.Controller.Selection.{reset}
use local_coding_agent_harne.Session.Files.{reset_task_files}
use local_coding_agent_harne.Session.{
  Session, SessionError, Transition, Action, plan_method, on_plan_transition, transition_task,
}

-- `bool(task_id is not None and not terminal)`
abbrev pub is_active : Session → Bool
is_active s = not (is_none s.task_id) && not (is_terminal_task_status s.task_status)

-- The last five.
abbrev pub last_five {ℓ} : {A : Type ℓ} → List A → List A
last_five xs = reverse (take 5 (reverse xs))

-- Of the summary, the task and its status.
abbrev pub archived : Option ℕ → Session → Session
archived none s = s
archived (some task_id) s =
    if s.task_archived || not (is_terminal_task_status s.task_status) then s else record s {
      completed_tasks = last_five (s.completed_tasks ++ (task_id, s.task_status) ∷ []);
      task_archived = true;
    }

unfoldable pub archive_terminal_task : Session → Session
archive_terminal_task s = archived s.task_id s

unfoldable pub reset_task_state : Session → Session
reset_task_state s = record s {
  files = reset_task_files s.files;
  pending_user_continuation_id = none;
  pending_user_continuation = none;
}

abbrev pub with_task : Text → Session → Session
with_task task s = record s {
  task = task;
  task_sequence = s.task_sequence + 1;
  task_id = some (s.task_sequence + 1);
  task_archived = false;
}

abbrev pub task_started : Transition
task_started = record {
  status = TaskStatus.running;
  trigger = codes "task_started";
  waiting_reason = none;
  new_task = true;
}

module _ (env : Env) where
  -- The listener that the controller is made with.
  abbrev pub listener : PlanAction → Action (Unit {0})
  listener = on_plan_transition env (transition_task env 1)

  -- A method of `plan_controller`.
  unfoldable pub plan_call : PlanCall → Action (Unit {0})
  plan_call call = plan_method env listener (body env call)

  -- The policies are those of the configuration.
  unfoldable pub begin_task : PlanPolicy → PlanApprovalPolicy → Text → Action (Unit {0})
  begin_task policy approval_policy task s =
      if is_active s
      then (err SessionError.task_still_active, s)
      else (transition_task env 1 task_started
            >> plan_method env listener (reset env policy approval_policy task))
          (reset_task_state (with_task task (archive_terminal_task s)))
