-- ===== src/Task.antt =====
-- src/runtime/task.py: the statuses of a task and the changes between them.
use local_coding_agent_harne.Prelude.{Bool, true, false, ◌||◌, Text, codes}

pub data TaskStatus : Type 0 where
  idle running waiting_user completed failed cancelled : TaskStatus

abbrev pub status_is : TaskStatus → TaskStatus → Bool
status_is TaskStatus.idle TaskStatus.idle = true
status_is TaskStatus.running TaskStatus.running = true
status_is TaskStatus.waiting_user TaskStatus.waiting_user = true
status_is TaskStatus.completed TaskStatus.completed = true
status_is TaskStatus.failed TaskStatus.failed = true
status_is TaskStatus.cancelled TaskStatus.cancelled = true
status_is _ _ = false

-- The text of a status.
abbrev pub value : TaskStatus → Text
value TaskStatus.idle = codes "idle"
value TaskStatus.running = codes "running"
value TaskStatus.waiting_user = codes "waiting_user"
value TaskStatus.completed = codes "completed"
value TaskStatus.failed = codes "failed"
value TaskStatus.cancelled = codes "cancelled"

abbrev pub is_terminal_task_status : TaskStatus → Bool
is_terminal_task_status TaskStatus.completed = true
is_terminal_task_status TaskStatus.failed = true
is_terminal_task_status TaskStatus.cancelled = true
is_terminal_task_status _ = false

abbrev pub is_allowed : TaskStatus → TaskStatus → Bool → Bool
is_allowed TaskStatus.idle TaskStatus.running new_task = true
is_allowed TaskStatus.running TaskStatus.waiting_user new_task = true
is_allowed TaskStatus.running TaskStatus.completed new_task = true
is_allowed TaskStatus.running TaskStatus.failed new_task = true
is_allowed TaskStatus.running TaskStatus.cancelled new_task = true
is_allowed TaskStatus.waiting_user TaskStatus.running new_task = true
is_allowed TaskStatus.waiting_user TaskStatus.failed new_task = true
is_allowed TaskStatus.waiting_user TaskStatus.cancelled new_task = true
is_allowed TaskStatus.completed TaskStatus.running new_task = new_task
is_allowed TaskStatus.failed TaskStatus.running new_task = new_task
is_allowed TaskStatus.cancelled TaskStatus.running new_task = new_task
is_allowed _ _ new_task = false

-- Whether `validate_task_transition` returns; otherwise it raises TaskTransitionError.
unfoldable pub validate_task_transition : TaskStatus → TaskStatus → Bool → Bool
validate_task_transition before after new_task =
    status_is before after || is_allowed before after new_task
