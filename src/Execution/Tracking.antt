-- ===== src/Execution/Tracking.antt =====
-- src/runtime/hooks/tracking.py: what the hooks behind a call record of it.
pub mod Verification
pub mod Verified
use local_coding_agent_harne.Prelude.{
  ℕ, zero, suc, ◌+◌, ◌-◌, Bool, true, false, not, ◌&&◌, ◌||◌, ◌==◌, leb, ltb, Option, none, some,
  is_none, List, [], ◌∷◌, ◌++◌, length, drop, any_of, is_nil, Text, codes, strip, text_eq, contains,
  is_prefix, is_infix, split_words, if◌then◌else◌,
}
use local_coding_agent_harne.Session.Files.{FileTracking, record_mutation, record_changed_file}
use local_coding_agent_harne.Security.Models.{
  OperationKind, kind_is, BashRisk, BashRiskDecision, risk_is,
}
use local_coding_agent_harne.Execution.Output.{head_tail_preview}

pub data ResultScope : Type 0 where
  command launcher other_scope : ResultScope

pub data BlockedBy : Type 0 where
  plan_gate tool_capability other_block : BlockedBy

pub data IgnoredReason : Type 0 where
  launcher_result missing_execution_result_scope : IgnoredReason
  explicit_mutation_command read_only_discovery_command : IgnoredReason

pub data MutationOutcome : Type 0 where
  not_executed succeeded failed : MutationOutcome

pub data VerificationLevel : Type 0 where
  integration test_suite static custom : VerificationLevel

-- A result with the keys of its metadata that the hooks read or write; `tracks_failure` is false
-- where "track_mutation_failure" is False.
pub record TrackedResult : Type 0 where
  pub ok : Bool
  pub content : Text
  pub error : Option Text
  pub denied : Bool
  pub blocked_by_hook : Bool
  pub blocked_by : Option BlockedBy
  pub model_contract_violation : Bool
  pub truncated : Bool
  pub unavailable_tool : Bool
  pub validation_error : Bool
  pub result_scope : Option ResultScope
  pub operation_kind : Option OperationKind
  pub tracks_failure : Bool
  pub purpose : Option Text
  pub mutation_recorded : Bool
  pub mutation_outcome : Option MutationOutcome
  pub mutation_failure_recovered : Bool
  pub verification_ignored : Option IgnoredReason
  pub verification_command : Bool
  pub test_command : Bool

-- The tool call: the tool's name, the arguments "command" and "purpose", and the kind that the tool
-- classifies the call as, if it does.
pub record TrackedCall : Type 0 where
  pub tool_name : Text
  pub command : Text
  pub purpose : Option Text
  pub classified_kind : Option OperationKind

pub record TestResult : Type 0 where
  pub command : Text
  pub ok : Bool
  pub mutation_version : ℕ
  pub verification_level : VerificationLevel

pub record ToolFailure : Type 0 where
  pub tool : Text
  pub error : Text
  pub output_preview : Text
  pub category : Text

pub record ToolBudget : Type 0 where
  pub read_file_calls : ℕ
  pub grep_calls : ℕ
  pub list_dir_calls : ℕ
  pub bash_calls : ℕ
  pub chars_returned : ℕ
  pub truncated_results : ℕ

pub record Tracking : Type 0 where
  pub files : FileTracking
  pub tool_budget : ToolBudget
  pub task_tool_failures : List ToolFailure
  pub task_unresolved_mutation_failure : Bool
  pub task_test_result : Option TestResult
  pub task_verification_version : Option ℕ

abbrev pub counted : Bool → ℕ → ℕ
counted test n = if test then n + 1 else n

abbrev pub is_gated : Option BlockedBy → Bool
is_gated (some BlockedBy.plan_gate) = true
is_gated (some BlockedBy.tool_capability) = true
is_gated _ = false

-- `record_tool_budget_hook`
unfoldable pub record_tool_budget : TrackedCall → TrackedResult → Tracking → Tracking
record_tool_budget call result t =
    let budget = t.tool_budget in
    if is_gated result.blocked_by then t else record t {
      tool_budget = record {
        read_file_calls =
            counted (text_eq call.tool_name (codes "read_file")) budget.read_file_calls;
        grep_calls = counted (text_eq call.tool_name (codes "grep")) budget.grep_calls;
        list_dir_calls = counted (text_eq call.tool_name (codes "list_dir")) budget.list_dir_calls;
        bash_calls = counted (text_eq call.tool_name (codes "bash")) budget.bash_calls;
        chars_returned = budget.chars_returned + length result.content;
        truncated_results = counted result.truncated budget.truncated_results;
      };
    }

abbrev pub is_bash : TrackedCall → Bool
is_bash call = text_eq call.tool_name (codes "bash")

-- What stands at a path of the repository.
pub data FileKind : Type 0 where
  missing regular other_file : FileKind

abbrev pub recorded_path : Bool → Option (Text × FileKind) → Option Text
recorded_path ok none = none
recorded_path ok (some (path, FileKind.missing)) = if ok then some path else none
recorded_path ok (some (path, FileKind.regular)) = some path
recorded_path ok (some (path, FileKind.other_file)) = none

abbrev pub with_changed : Option Text → FileTracking → FileTracking
with_changed none files = files
with_changed (some path) files = record_changed_file path files

unfoldable pub record_paths : (Text → Option Text) → List Text → FileTracking → FileTracking
record_paths recorded [] files = files
record_paths recorded (path ∷ paths) files =
    record_paths recorded paths (with_changed (recorded path) files)

abbrev pub records_none : (Text → Option Text) → List Text → Bool
records_none recorded paths = not (any_of (λ path. not (is_none (recorded path))) paths)

-- `mutation_result_hook`, with the classifier of commands and `look`, the path relative to the
-- repository and what stands at it, `none` if it is outside
unfoldable pub mutation_result_hook :
    (Text → BashRiskDecision)
    → (Text → Option (Text × FileKind))
    → TrackedCall
    → TrackedResult
    → Tracking
    → TrackedResult × Tracking
mutation_result_hook classify look call result t =
    let recorded = λ (path : Text). recorded_path result.ok (look path) in
    let decision = classify call.command in
    let paths = decision.target_paths in
    let files = record_paths recorded paths t.files in
    if not (is_bash call)
      || (result.denied || result.blocked_by_hook)
      || not (risk_is decision.risk BashRisk.file_write_via_bash || decision.writes_files)
    then (result, t)
    else (
      record result { mutation_recorded = true },
      record t { files = if records_none recorded paths then record_mutation files else files },
    )

abbrev pub error_or : Option Text → Text → Text
error_or none default = default
error_or (some []) default = default
error_or (some (c ∷ error)) default = c ∷ error

abbrev pub failure_category : TrackedResult → Text
failure_category result =
    if result.unavailable_tool
    then codes "unavailable_tool"
    else if result.validation_error
    then codes "validation_error"
    else codes "tool_failure"

-- `del failures[:-20]`
abbrev pub last_twenty : List ToolFailure → List ToolFailure
last_twenty failures = drop (length failures - 20) failures

-- `failure_history_hook`
unfoldable pub failure_history_hook : TrackedCall → TrackedResult → Tracking → Tracking
failure_history_hook call result t =
    if (result.ok || result.denied)
      || (is_gated result.blocked_by && not result.model_contract_violation)
    then t
    else record t {
      task_tool_failures = last_twenty (
          t.task_tool_failures
          ++ record {
            tool = call.tool_name;
            error = error_or result.error (codes "tool failed");
            output_preview = head_tail_preview result.content 300;
            category = failure_category result;
          }
            ∷ []);
    }

-- `_mutation_operation_kind`
abbrev pub kind_or : Option OperationKind → Option OperationKind → Option OperationKind
kind_or none other = other
kind_or (some kind) other = some kind

unfoldable pub mutation_operation_kind : TrackedCall → TrackedResult → Option OperationKind
mutation_operation_kind call result =
    kind_or result.operation_kind
      (if result.mutation_recorded then some OperationKind.fs_write else call.classified_kind)

abbrev pub is_mutation_kind : Option OperationKind → Bool
is_mutation_kind none = false
is_mutation_kind (some kind) =
    kind_is kind OperationKind.fs_write || kind_is kind OperationKind.fs_delete

-- `mutation_outcome_hook`
unfoldable pub mutation_outcome_hook :
    TrackedCall → TrackedResult → Tracking → TrackedResult × Tracking
mutation_outcome_hook call result t =
    if not (is_mutation_kind (mutation_operation_kind call result))
    then (result, t)
    else if not result.tracks_failure
    then (record result { mutation_outcome = some MutationOutcome.not_executed }, t)
    else (
      record result {
        mutation_outcome =
            some (if result.ok then MutationOutcome.succeeded else MutationOutcome.failed);
        mutation_failure_recovered =
            result.mutation_failure_recovered || (result.ok && t.task_unresolved_mutation_failure);
      },
      record t { task_unresolved_mutation_failure = not result.ok },
    )
