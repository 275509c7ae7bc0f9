-- ===== src/Execution/Tracking/Verification.antt =====
-- src/runtime/hooks/tracking.py: test_result_hook, which records the result of a verification.
use local_coding_agent_harne.Prelude.{
  ℕ, Bool, true, false, not, ◌&&◌, ◌||◌, Option, none, some, is_none, List, [], ◌∷◌, any_of, is_nil,
  Text, codes, strip, text_eq, contains, is_prefix, is_infix, split_words, if◌then◌else◌,
}
use local_coding_agent_harne.Execution.Tracking.{
  ResultScope, IgnoredReason, VerificationLevel, TrackedResult, TrackedCall, TestResult, Tracking,
  is_bash, is_mutation_kind, mutation_operation_kind,
}

-- `text.partition("&&")`: what stands before and behind the first "&&", if there is one.
abbrev pub push_char : ℕ → Option (Text × Text) → Option (Text × Text)
push_char c none = none
push_char c (some (before, behind)) = some (c ∷ before, behind)

unfoldable pub partition : Text → Option (Text × Text)
partition [] = none
partition (c ∷ []) = none
partition (c ∷ d ∷ text) =
    let later = push_char c (partition (d ∷ text)) in
    if is_prefix (codes "&&") (c ∷ d ∷ text) then some ([], text) else later

abbrev pub unwrapped : Text → Option (Text × Text) → Text
unwrapped stripped none = stripped
unwrapped stripped (some (leading, remainder)) =
    if is_prefix (codes "cd ") (strip leading) then strip remainder else stripped

module _ (lower : Text → Text) where
  -- `_normalize_single_cd_wrapper`
  unfoldable pub normalize_single_cd_wrapper : Text → Text
  normalize_single_cd_wrapper command =
      let stripped = lower (strip command) in unwrapped stripped (partition stripped)

  abbrev pub has_any : Text → List Text → Bool
  has_any text parts = any_of (λ part. is_infix part text) parts

  unfoldable pub is_test_command : Text → Bool
  is_test_command command =
      has_any (lower command) (codes "pytest" ∷ codes "unittest" ∷ codes "npm test" ∷ [])

  abbrev pub discovery_prefixes : List Text
  discovery_prefixes =
      codes "command -v "
      ∷ codes "find "
      ∷ codes "git status"
      ∷ codes "git diff"
      ∷ codes "git log"
      ∷ codes "ls"
      ∷ codes "dir"
      ∷ codes "tree"
      ∷ codes "pwd"
      ∷ codes "rg "
      ∷ codes "grep "
      ∷ codes "which "
      ∷ []

  unfoldable pub is_discovery_command : Text → Bool
  is_discovery_command command =
      let stripped = normalize_single_cd_wrapper command in
      any_of (λ prefix. text_eq stripped (strip prefix) || is_prefix prefix stripped)
        discovery_prefixes

  abbrev pub begins_git_diff : List Text → Bool
  begins_git_diff (first ∷ second ∷ third ∷ tokens) =
      text_eq first (codes "git") && text_eq second (codes "diff")
  begins_git_diff _ = false

  unfoldable pub is_git_diff_check : Text → Bool
  is_git_diff_check command =
      let tokens = split_words (normalize_single_cd_wrapper command) in
      begins_git_diff tokens
      && not (
          any_of (λ operator. contains operator tokens)
            (codes "&&" ∷ codes "||" ∷ codes "|" ∷ codes ";" ∷ []))
      && contains (codes "--check") tokens

  abbrev pub purpose_of : Option Text → Option Text
  purpose_of none = none
  purpose_of (some value) =
      let purpose = lower (strip value) in if is_nil purpose then none else some purpose

  abbrev pub or_purpose : Option Text → Option Text → Option Text
  or_purpose none other = other
  or_purpose (some purpose) other = some purpose

  -- `_verification_purpose`
  unfoldable pub verification_purpose : TrackedCall → TrackedResult → Option Text
  verification_purpose call result =
      or_purpose (purpose_of call.purpose) (purpose_of result.purpose)

  abbrev pub is_verify : Option Text → Bool
  is_verify none = false
  is_verify (some purpose) = text_eq purpose (codes "verify")

  unfoldable pub is_verification_command : TrackedCall → TrackedResult → Bool
  is_verification_command call result = is_verify (verification_purpose call result)

  unfoldable pub verification_level : Text → VerificationLevel
  verification_level command =
      let normalized = lower command in
      if has_any normalized (codes "playwright" ∷ codes "selenium" ∷ codes "cypress" ∷ [])
      then VerificationLevel.integration
      else if is_test_command command
      then VerificationLevel.test_suite
      else if has_any normalized (
          codes "--check"
          ∷ codes "py_compile"
          ∷ codes "compileall"
          ∷ codes "sh -n"
          ∷ codes "bash -n"
          ∷ codes "ruff check"
          ∷ [])
      then VerificationLevel.static
      else VerificationLevel.custom

  -- The call counts as a test: its purpose is not given, and its command is that of a test.
  abbrev pub is_test : TrackedCall → TrackedResult → Bool
  is_test call result = is_none (verification_purpose call result) && is_test_command call.command

  abbrev pub is_command_scope : Option ResultScope → Bool
  is_command_scope (some ResultScope.command) = true
  is_command_scope _ = false

  abbrev pub scope_reason : Option ResultScope → IgnoredReason
  scope_reason (some ResultScope.launcher) = IgnoredReason.launcher_result
  scope_reason _ = IgnoredReason.missing_execution_result_scope

  -- Why the result does not count, in the order of the tests.
  unfoldable pub ignored_reason : TrackedCall → TrackedResult → Option IgnoredReason
  ignored_reason call result =
      if not (is_command_scope result.result_scope)
      then some (scope_reason result.result_scope)
      else if is_mutation_kind (mutation_operation_kind call result)
      then some IgnoredReason.explicit_mutation_command
      else if is_discovery_command call.command
          && not (is_verification_command call result && is_git_diff_check call.command)
      then some IgnoredReason.read_only_discovery_command
      else none

  abbrev pub test_result_of : TrackedCall → TrackedResult → Tracking → TestResult
  test_result_of call result t = record {
    command = call.command;
    ok = result.ok;
    mutation_version = t.files.mutation_version;
    verification_level = verification_level call.command;
  }

  abbrev pub record_test :
      TrackedCall → TrackedResult → Tracking → Option IgnoredReason → TrackedResult × Tracking
  record_test call result t (some reason) =
      (record result { verification_ignored = some reason }, t)
  record_test call result t none = (
    record result {
      verification_command = true;
      test_command = result.test_command || is_test call result;
    },
    record t {
      task_test_result = some (test_result_of call result t);
      task_verification_version = some t.files.mutation_version;
    },
  )

  -- `test_result_hook`
  unfoldable pub test_result_hook :
      TrackedCall → TrackedResult → Tracking → TrackedResult × Tracking
  test_result_hook call result t =
      if not (is_bash call)
        || (result.denied || result.blocked_by_hook)
        || not (is_test call result || is_verification_command call result)
      then (result, t)
      else record_test call result t (ignored_reason call result)
