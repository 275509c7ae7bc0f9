-- ===== src/Samples/Sessions.antt =====
-- The theorems on sessions, on a session that waits for the approval of the run's plan.
use local_coding_agent_harne.Prelude.{
  ◌≡◌, refl, true, false, none, some, [], ◌∷◌, codes, ok, strip, drop_spaces, text_eq, contains,
  arith,
}
use local_coding_agent_harne.Task.{TaskStatus}
use local_coding_agent_harne.Plan.Models.{
  PlanPolicy, PlanApprovalPolicy, from_value, lookup, insert, plan_step_fingerprint,
}
use local_coding_agent_harne.Plan.Validation.{initial, validate, as_validation, distinct}
use local_coding_agent_harne.Plan.Controller.{PlanCall, body, perform, record_transition}
use local_coding_agent_harne.Plan.Controller.Base.{required_text, optional_text}
use local_coding_agent_harne.Plan.Controller.Drafting.{
  replace_plan, submit_for_execution, from_values, is_retained, retain_step, retain_ledger, step_eq,
  steps_eq, with_plan,
}
use local_coding_agent_harne.Plan.Controller.Approval.{approve}
use local_coding_agent_harne.Plan.Controller.Progress.{
  update_step, change_step, find_target, find_step, set_status, with_status,
}
use local_coding_agent_harne.Session.Files.{
  FileTracking, FileCall, record_file, record_deleted_file, record_created_file,
}
use local_coding_agent_harne.Session.Files.Views.{
  view, view_step, record_file-view, IsCoherent, record_file-IsCoherent, deleted-created,
}
use local_coding_agent_harne.Session.{Session, Transition, to_status, transition_task}
use local_coding_agent_harne.Session.Tasks.{plan_call, begin_task}
use local_coding_agent_harne.Session.Fuel.{transition_task-fuel}
use local_coding_agent_harne.Session.Frame.{Keeps, plan_call-Keeps}
use local_coding_agent_harne.Session.Lifecycle.{IsSettled, IsActive, plan_call-IsSettled}
use local_coding_agent_harne.Session.Beginning.{IsReady, HasBegun, begin_task-IsSettled}
use local_coding_agent_harne.Session.Continuation.{
  has_pending_user_continuation, PlanResponse, apply_plan_response,
}
use local_coding_agent_harne.Session.Responses.{Answered, apply_plan_response-Answered}
use local_coding_agent_harne.Samples.Runs.{
  env, env-IsDigest, started, submitted, submitted-Reach, valid,
}

abbrev files : FileTracking
files = record {
  changed_files = codes "a" ∷ [];
  task_changed_files = codes "a" ∷ [];
  created_files = [];
  task_created_files = [];
  deleted_files = [];
  task_deleted_files = [];
  mutation_version = 1;
  task_start_mutation_version = 0;
}

-- The user has answered, and the plan waits for the approval.
abbrev waiting : Session
waiting = record {
  plan_state = submitted;
  task = codes "goal";
  task_id = some 1;
  task_archived = false;
  completed_tasks = [];
  task_sequence = 1;
  task_status = TaskStatus.waiting_user;
  task_waiting_reason = some (codes "plan_approval");
  user_continuation_sequence = 1;
  pending_user_continuation_id = some 1;
  pending_user_continuation = some (codes "yes");
  files = files;
  trace = [];
}

waiting-IsSettled : IsSettled env waiting
unfolding perform body record_transition replace_plan from_values from_value retain_step is_retained
    retain_ledger step_eq steps_eq with_plan validate as_validation initial strip drop_spaces
    text_eq contains lookup insert optional_text plan_step_fingerprint distinct submit_for_execution
    approve update_step change_step find_target find_step set_status with_status required_text
waiting-IsSettled = record { plan = valid submitted-Reach; task = refl; consistent = refl }

plan_call-IsSettled_example :
    ((plan_call env PlanCall.approve waiting).0 ≡ ok tt)
    × IsSettled env (plan_call env PlanCall.approve waiting).1
unfolding perform body record_transition replace_plan from_values from_value retain_step is_retained
    retain_ledger step_eq steps_eq with_plan validate as_validation initial strip drop_spaces
    text_eq contains lookup insert optional_text plan_step_fingerprint distinct submit_for_execution
    approve update_step change_step find_target find_step set_status with_status required_text
plan_call-IsSettled_example =
    plan_call-IsSettled env PlanCall.approve waiting env-IsDigest waiting-IsSettled
      (IsActive.waiting refl) refl

plan_call-Keeps_example : Keeps (plan_call env PlanCall.approve)
plan_call-Keeps_example = plan_call-Keeps env PlanCall.approve

apply_plan_response-Answered_example :
    Answered waiting 1
      (apply_plan_response env PlanResponse.approve true waiting).0
      (apply_plan_response env PlanResponse.approve true waiting).1
unfolding has_pending_user_continuation
apply_plan_response-Answered_example =
    apply_plan_response-Answered env PlanResponse.approve true waiting 1 refl refl

abbrev cancelling : Transition
cancelling = to_status TaskStatus.cancelled (codes "user") none

transition_task-fuel_example :
    transition_task env 3 cancelling waiting ≡ transition_task env 1 cancelling waiting
transition_task-fuel_example = transition_task-fuel env 2 cancelling waiting

-- A session before its first task.
abbrev idle : Session
idle = record waiting {
  plan_state = started;
  task_id = none;
  task_sequence = 0;
  task_status = TaskStatus.idle;
  task_waiting_reason = none;
  pending_user_continuation_id = none;
  pending_user_continuation = none;
}

idle-IsReady : IsReady idle
unfolding initial
idle-IsReady = record {
  inactive = refl;
  status = λ e. absurd (ground arith);
  phase = λ e. absurd (ground arith);
}

begin_task-IsSettled_example :
    ((begin_task env PlanPolicy.auto PlanApprovalPolicy.manual (codes "goal") idle).0 ≡ ok tt)
    × IsSettled env (begin_task env PlanPolicy.auto PlanApprovalPolicy.manual (codes "goal") idle).1
    × HasBegun env PlanPolicy.auto PlanApprovalPolicy.manual
        (codes "goal")
        idle
        (begin_task env PlanPolicy.auto PlanApprovalPolicy.manual (codes "goal") idle).1
begin_task-IsSettled_example =
    begin_task-IsSettled env PlanPolicy.auto PlanApprovalPolicy.manual (codes "goal") idle
      idle-IsReady

record_file-view_example :
    view (codes "a") (record_file (FileCall.deleted (codes "a")) files)
    ≡ view_step (codes "a") (FileCall.deleted (codes "a")) (view (codes "a") files)
record_file-view_example = record_file-view (codes "a") (FileCall.deleted (codes "a")) files

abbrev no_files : FileTracking
no_files = record files { changed_files = []; task_changed_files = []; mutation_version = 0 }

no_files-IsCoherent : IsCoherent no_files
unfolding IsCoherent contains
no_files-IsCoherent q = refl

record_file-IsCoherent_example : IsCoherent (record_file (FileCall.created (codes "b")) no_files)
record_file-IsCoherent_example =
    record_file-IsCoherent (FileCall.created (codes "b")) no_files no_files-IsCoherent

deleted-created_example :
    view (codes "a") (
      record_deleted_file
        (codes "a")
        (record_created_file (codes "a") (record_deleted_file (codes "a") files)))
    ≡ record {
      changed = false;
      task_changed = false;
      created = false;
      task_created = false;
      deleted = false;
      task_deleted = false;
    }
deleted-created_example = deleted-created (codes "a") (record_deleted_file (codes "a") files)
