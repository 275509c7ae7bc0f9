-- ===== src/Execution/Tracking/Verified.antt =====
-- The verifications that src/runtime/hooks/tracking.py records, and what makes them stale.
use local_coding_agent_harne.Prelude.{
  ◌≤◌, ◌<◌, ◌≡◌, ◌⊎◌, refl, sym, ap, ◌∙◌, subst, true, false, not, ◌&&◌, ◌||◌, Option, none, some,
  List, [], ◌∷◌, Text, arith, Bool-cases, Option-cases, inl, inr, if◌then◌else◌,
}
use local_coding_agent_harne.Session.Files.{FileTracking, record_mutation, record_changed_file}
use local_coding_agent_harne.Security.Models.{BashRisk, BashRiskDecision, risk_is}
use local_coding_agent_harne.Execution.Tracking.{
  TrackedResult, TrackedCall, Tracking, FileKind, is_bash, is_mutation_kind,
  mutation_operation_kind, mutation_result_hook, mutation_outcome_hook, record_paths, records_none,
  recorded_path, with_changed,
}
use local_coding_agent_harne.Execution.Tracking.Verification.{
  is_test, is_verification_command, is_command_scope, is_discovery_command, is_git_diff_check,
  ignored_reason, test_result_of, record_test, test_result_hook,
}

module _ (lower : Text → Text) where
  -- The result is recorded as a verification of the present state of the files.
  pub record IsVerified (call : TrackedCall) (result : TrackedResult) (t after : Tracking)
      : Type 0 where
    pub by_bash : is_bash call ≡ true
    pub executed : (result.denied || result.blocked_by_hook) ≡ false
    pub named : (is_test lower call result || is_verification_command lower call result) ≡ true
    pub scope : is_command_scope lower result.result_scope ≡ true
    pub no_mutation : is_mutation_kind (mutation_operation_kind call result) ≡ false
    pub no_discovery :
        (is_discovery_command lower call.command
          && not
              (is_verification_command lower call result && is_git_diff_check lower call.command))
        ≡ false
    pub recorded : after.task_test_result ≡ some (test_result_of lower call result t)
    pub version : after.task_verification_version ≡ some after.files.mutation_version
    pub files : after.files ≡ t.files

  record_test-cases :
      (call : TrackedCall) (result : TrackedResult) (t : Tracking)
      → is_bash call ≡ true
      → (result.denied || result.blocked_by_hook) ≡ false
      → (is_test lower call result || is_verification_command lower call result) ≡ true
      → let after = (record_test lower call result t (ignored_reason lower call result)).1 in
        (after ≡ t) ⊎ IsVerified call result t after
  unfolding ignored_reason
  record_test-cases call result t b e n = elim (Option-cases (ignored_reason lower call result)) [
    | inr (reason, r) ↦ rw r (inl refl)
    | inl r ↦ rw r (
        inr record {
          by_bash = b;
          executed = e;
          named = n;
          scope = ground arith;
          no_mutation = ground arith;
          no_discovery = ground arith;
          recorded = refl;
          version = refl;
          files = refl;
        })
  ]

  -- The hook either records nothing, or it records the result of a Bash call that was executed, whose
  -- scope is that of the command itself, that is named as a verification or tests, that does not
  -- change files, and that is not a mere look around; then the version that it records is the
  -- present one of the files.
  pub test_result_hook-IsVerified :
      (call : TrackedCall) (result : TrackedResult) (t : Tracking)
      → let after = (test_result_hook lower call result t).1 in
        (after ≡ t) ⊎ IsVerified call result t after
  unfolding test_result_hook
  test_result_hook-IsVerified call result t = elim (Bool-cases (is_bash call)) [
    | inr b ↦ simp b (inl refl)
    | inl b ↦ elim (Bool-cases (result.denied || result.blocked_by_hook)) [
      | inl e ↦ simp (b, e) (inl refl)
      | inr e ↦
          elim (Bool-cases
            (is_test lower call result || is_verification_command lower call result)) [
              | inr n ↦ simp (b, e, n) (inl refl)
              | inl n ↦ simp (b, e, n) (record_test-cases call result t b e n)
            ]
    ]
  ]

record_paths-le :
    (recorded : Text → Option Text) (paths : List Text) (files : FileTracking)
    → files.mutation_version ≤ (record_paths recorded paths files).mutation_version
unfolding record_paths record_mutation record_changed_file
record_paths-le recorded [] files = omega arith
record_paths-le recorded (path ∷ paths) files =
    let rest = record_paths-le recorded paths (with_changed (recorded path) files) in
    elim (Option-cases (recorded path)) [ inl e ↦ ground arith | inr (p, e) ↦ ground arith ]

-- A path is recorded, or the mutation is counted without one.
abbrev counted_paths : (Text → Option Text) → List Text → FileTracking → FileTracking
counted_paths recorded paths files =
    if records_none recorded paths
    then record_mutation (record_paths recorded paths files)
    else record_paths recorded paths files

counted_paths-version :
    (recorded : Text → Option Text) (paths : List Text) (files : FileTracking)
    → files.mutation_version < (counted_paths recorded paths files).mutation_version
unfolding record_paths record_mutation record_changed_file
counted_paths-version recorded [] files = omega arith
counted_paths-version recorded (path ∷ paths) files =
    let rest = record_paths-le recorded paths (with_changed (recorded path) files) in
    let later = counted_paths-version recorded paths files in
    elim (Option-cases (recorded path)) [ inl e ↦ ground arith | inr (p, e) ↦ ground arith ]

-- Nothing else than the files differs in what the hooks read.
abbrev KeepsVerification : Tracking → Tracking → Type 0
KeepsVerification t after =
    (after.task_test_result ≡ t.task_test_result)
    × (after.task_verification_version ≡ t.task_verification_version)

mutation_outcome-keeps :
    (call : TrackedCall) (result : TrackedResult) (t : Tracking)
    → let (written, after) = mutation_outcome_hook call result t in
      KeepsVerification t after
      × (after.files ≡ t.files)
      × (written.operation_kind ≡ result.operation_kind)
      × (written.mutation_recorded ≡ result.mutation_recorded)
unfolding mutation_outcome_hook
mutation_outcome-keeps call result t =
    elim (Bool-cases (is_mutation_kind (mutation_operation_kind call result))) [
      | inr k ↦ simp k ((refl, refl), refl, refl, refl)
      | inl k ↦ elim (Bool-cases result.tracks_failure) [
        | inr f ↦ simp (k, f) ((refl, refl), refl, refl, refl)
        | inl f ↦ simp (k, f) ((refl, refl), refl, refl, refl)
      ]
    ]

test_result-ignores :
    (lower : Text → Text) (call : TrackedCall) (result : TrackedResult) (t : Tracking)
    → result.operation_kind ≡ none
    → result.mutation_recorded ≡ true
    → (test_result_hook lower call result t).1 ≡ t
unfolding mutation_operation_kind
test_result-ignores lower call result t k m =
    elim (test_result_hook-IsVerified lower call result t) [
      | inl e ↦ e
      | inr v ↦ absurd (ground (arith, v.no_mutation))
    ]

record_paths-start :
    (recorded : Text → Option Text) (paths : List Text) (files : FileTracking)
    → (record_paths recorded paths files).task_start_mutation_version
      ≡ files.task_start_mutation_version
unfolding record_paths record_mutation record_changed_file
record_paths-start recorded [] files = refl
record_paths-start recorded (path ∷ paths) files =
    let rest = record_paths-start recorded paths (with_changed (recorded path) files) in
    elim (Option-cases (recorded path)) [ inl e ↦ ground arith | inr (p, e) ↦ ground arith ]

counted_paths-start :
    (recorded : Text → Option Text) (paths : List Text) (files : FileTracking)
    → (counted_paths recorded paths files).task_start_mutation_version
      ≡ files.task_start_mutation_version
unfolding record_mutation
counted_paths-start recorded paths files = ground (arith, record_paths-start recorded paths files)

-- The hooks that follow a call, in the order in which they are registered, as far as they change
-- what is tracked of mutations and verifications.
unfoldable pub after_call :
    (Text → Text)
    → (Text → BashRiskDecision)
    → (Text → Option (Text × FileKind))
    → TrackedCall
    → TrackedResult
    → Tracking
    → TrackedResult × Tracking
after_call lower classify look call result t =
    let (written, t1) = mutation_result_hook classify look call result t in
    let (counted, t2) = mutation_outcome_hook call written t1 in
    test_result_hook lower call counted t2

-- A Bash call that was executed and whose command writes files never counts as a verification, and
-- the version of the files is later than before.
pub after_call-stale :
    (lower : Text → Text) (classify : Text → BashRiskDecision)
    (look : Text → Option (Text × FileKind)) (call : TrackedCall) (result : TrackedResult)
    (t : Tracking)
    → is_bash call ≡ true
    → (result.denied || result.blocked_by_hook) ≡ false
    → (risk_is (classify call.command).risk BashRisk.file_write_via_bash
        || (classify call.command).writes_files)
      ≡ true
    → result.operation_kind ≡ none
    → let after = (after_call lower classify look call result t).1 in
      (after.task_test_result ≡ t.task_test_result)
      × (after.task_verification_version ≡ t.task_verification_version)
      × (after.files.task_start_mutation_version ≡ t.files.task_start_mutation_version)
      × (t.files.mutation_version < after.files.mutation_version)
unfolding after_call mutation_result_hook
after_call-stale lower classify look call result t b e w k =
    let recorded = λ (path : Text). recorded_path result.ok (look path) in
    let files = counted_paths recorded (classify call.command).target_paths t.files in
    let t1 = record t { files = files } in
    let (written, t2) =
      mutation_outcome_hook call (record result { mutation_recorded = true }) t1 in
    let ((test, version), same, kind, marked) =
      mutation_outcome-keeps call (record result { mutation_recorded = true }) t1 in
    let ignored = test_result-ignores lower call written t2 (kind ∙ k) marked in
    simp (b, e, w)
      (
        ap (λ (u : Tracking). u.task_test_result) ignored ∙ test,
        ap (λ (u : Tracking). u.task_verification_version) ignored ∙ version,
        ap (λ (u : Tracking). u.files.task_start_mutation_version) ignored
            ∙ ap (λ (f : FileTracking). f.task_start_mutation_version) same
            ∙ counted_paths-start recorded (classify call.command).target_paths t.files,
        subst (λ n. t.files.mutation_version < n)
            (sym (
              ap (λ (u : Tracking). u.files.mutation_version) ignored
              ∙ ap (λ (f : FileTracking). f.mutation_version) same))
            (counted_paths-version recorded (classify call.command).target_paths t.files),
      )
