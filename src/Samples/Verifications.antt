-- ===== src/Samples/Verifications.antt =====
-- The theorems on what the hooks track, on a Bash call that runs tests and writes a file.
use local_coding_agent_harne.Prelude.{
  ◌≡◌, ◌≤◌, ◌<◌, ◌⊎◌, ◌+◌, ◌-◌, refl, true, false, none, some, [], ◌∷◌, ◌++◌, Text, codes, text_eq,
  length, arith,
}
use local_coding_agent_harne.Security.Models.{BashRisk, BashRiskDecision}
use local_coding_agent_harne.Execution.Output.{
  bounded_output_message, head_tail_preview, bounded_output_message-length,
}
use local_coding_agent_harne.Execution.Tracking.{
  ResultScope, VerificationLevel, TrackedCall, TrackedResult, Tracking, FileKind,
}
use local_coding_agent_harne.Execution.Tracking.Verification.{test_result_hook}
use local_coding_agent_harne.Execution.Tracking.Verified.{
  IsVerified, test_result_hook-IsVerified, after_call,
}
use local_coding_agent_harne.Agent.Success.{infer_success, infer_success-after_call}

abbrev lower : Text → Text
lower text = text

abbrev testing : TrackedCall
testing = record {
  tool_name = codes "bash";
  command = codes "pytest";
  purpose = some (codes "verify");
  classified_kind = none;
}

abbrev passed : TrackedResult
passed = record {
  ok = true;
  content = codes "1 passed";
  error = none;
  denied = false;
  blocked_by_hook = false;
  blocked_by = none;
  model_contract_violation = false;
  truncated = false;
  unavailable_tool = false;
  validation_error = false;
  result_scope = some ResultScope.command;
  operation_kind = none;
  tracks_failure = true;
  purpose = none;
  mutation_recorded = false;
  mutation_outcome = none;
  mutation_failure_recovered = false;
  verification_ignored = none;
  verification_command = false;
  test_command = false;
}

abbrev tracking : Tracking
tracking = record {
  files = record {
    changed_files = [];
    task_changed_files = [];
    created_files = [];
    task_created_files = [];
    deleted_files = [];
    task_deleted_files = [];
    mutation_version = 2;
    task_start_mutation_version = 1;
  };
  tool_budget = record {
    read_file_calls = 0;
    grep_calls = 0;
    list_dir_calls = 0;
    bash_calls = 0;
    chars_returned = 0;
    truncated_results = 0;
  };
  task_tool_failures = [];
  task_unresolved_mutation_failure = false;
  task_test_result = some record {
    command = codes "pytest";
    ok = true;
    mutation_version = 2;
    verification_level = VerificationLevel.test_suite;
  };
  task_verification_version = some 2;
}

test_result_hook-IsVerified_example :
    let after = (test_result_hook lower testing passed tracking).1 in
    (after ≡ tracking) ⊎ IsVerified lower testing passed tracking after
test_result_hook-IsVerified_example = test_result_hook-IsVerified lower testing passed tracking

-- The command is taken to write "out".
abbrev classify : Text → BashRiskDecision
classify command = record {
  risk = BashRisk.file_write_via_bash;
  target_paths = codes "out" ∷ [];
  command_prefix = none;
  writes_files = true;
  structured_tool = false;
  network_hosts = [];
}

infer_success-after_call_example :
    infer_success
      (codes "Done.")
      (after_call lower classify (λ path. some (path, FileKind.regular)) testing passed tracking).1
    ≡ false
unfolding text_eq
infer_success-after_call_example =
    infer_success-after_call lower classify (λ path. some (path, FileKind.regular)) testing passed
      tracking (codes "Done.") (omega arith, omega arith) refl refl refl refl

bounded_output_message-length_example :
    let message = bounded_output_message (codes "<o>") (codes "abcdefghij") (codes "</o>") 12 in
    let preview =
      head_tail_preview (codes "abcdefghij") (12 - length (codes "<o>") - length (codes "</o>")) in
    (length message ≤ 12)
    × ((12 < length (codes "<o>") + length (codes "</o>"))
        ⊎ (message ≡ codes "<o>" ++ (preview ++ codes "</o>")))
bounded_output_message-length_example =
    bounded_output_message-length (codes "<o>") (codes "abcdefghij") (codes "</o>") 12
