-- ===== src/Agent/Success.antt =====
-- src/agent/loop.py: AgentLoop.infer_success, over what the hooks have tracked.
use local_coding_agent_harne.Prelude.{
  ℕ, ◌≤◌, ◌≡◌, Bool, true, false, not, ◌||◌, ◌==◌, Option, none, some, is_nil, Text, arith,
  if◌then◌else◌,
}
use local_coding_agent_harne.Session.Files.{has_task_mutations}
use local_coding_agent_harne.Security.Models.{BashRisk, BashRiskDecision, risk_is}
use local_coding_agent_harne.Execution.Tracking.{
  TrackedCall, TrackedResult, TestResult, Tracking, FileKind, is_bash,
}
use local_coding_agent_harne.Execution.Tracking.Verified.{after_call, after_call-stale}

abbrev pub is_version : Option ℕ → ℕ → Bool
is_version none version = false
is_version (some verified) version = verified == version

-- The answer where there is a test result, and where there is none.
abbrev pub success_of : Option TestResult → Bool → Bool → Bool → Bool
success_of (some test) mutated current has_text =
    if not test.ok then false else if mutated then current else true
success_of none mutated current has_text = if mutated then false else has_text

-- `infer_success`
unfoldable pub infer_success : Text → Tracking → Bool
infer_success final_text t =
    if t.task_unresolved_mutation_failure
    then false
    else success_of t.task_test_result (has_task_mutations t.files)
        (is_version t.task_verification_version t.files.mutation_version) (not (is_nil final_text))

abbrev pub version_or_zero : Option ℕ → ℕ
version_or_zero none = 0
version_or_zero (some version) = version

-- No version is recorded that is later than the present one of the files.
abbrev pub IsTimely : Tracking → Type 0
IsTimely t =
    (t.files.task_start_mutation_version ≤ t.files.mutation_version)
    × (version_or_zero t.task_verification_version ≤ t.files.mutation_version)

-- A task whose last Bash call has written files, by the classifier, is not a success, whatever had been
-- verified before and whatever the call claimed to verify.
pub infer_success-after_call :
    (lower : Text → Text) (classify : Text → BashRiskDecision)
    (look : Text → Option (Text × FileKind)) (call : TrackedCall) (result : TrackedResult)
    (t : Tracking) (final_text : Text)
    → IsTimely t
    → is_bash call ≡ true
    → (result.denied || result.blocked_by_hook) ≡ false
    → (risk_is (classify call.command).risk BashRisk.file_write_via_bash
        || (classify call.command).writes_files)
      ≡ true
    → result.operation_kind ≡ none
    → infer_success final_text (after_call lower classify look call result t).1 ≡ false
unfolding infer_success
infer_success-after_call lower classify look call result t final_text timely b e w k =
    let (test, version, begun, later) =
      after_call-stale lower classify look call result t b e w k in
    ground (arith, timely)
