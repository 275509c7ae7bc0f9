-- ===== src/Execution/Progress.antt =====
-- src/runtime/progress.py, src/runtime/call_budget.py and src/runtime/recovery.py: the policies
-- that bound how long a task goes on.
use local_coding_agent_harne.Prelude.{
  ℕ, suc, ◌+◌, ◌-◌, ◌==◌, ◌≤◌, min, max, ◌≡◌, ◌≢◌, Bool, false, not, ◌&&◌, ◌||◌, Option, none, some,
  List, [], ◌∷◌, Text, text_eq, text_eq_refl, leb, ltb, is_nil, if◌then◌else◌, arith,
}
use local_coding_agent_harne.Execution.{ToolResult, ResultKind}

pub data ProgressAction : Type 0 where
  continue retry stop : ProgressAction

pub data ProgressReason : Type 0 where
  output_budget_saturated repeated_invalid_tool_call : ProgressReason

-- Of a decision, all but its message, its tools and its errors.
pub record ProgressDecision : Type 0 where
  pub action : ProgressAction
  pub reason : Option ProgressReason
  pub fingerprint : Option Text
  pub repeat_count : ℕ
  pub saturated_invalid_calls : ℕ
  pub output_budget_saturated : Bool

-- What the policy keeps of a task.
pub record Failures : Type 0 where
  pub task_failure_fingerprint : Option Text
  pub task_failure_repeat_count : ℕ
  pub task_saturated_invalid_calls : ℕ

-- `_failure_category`
abbrev pub failure_category : ResultKind → Option ResultKind
failure_category ResultKind.validation_error = some ResultKind.validation_error
failure_category ResultKind.unknown_tool = some ResultKind.unknown_tool
failure_category ResultKind.unavailable_tool = some ResultKind.unavailable_tool
failure_category ResultKind.model_contract_violation = some ResultKind.unavailable_tool
failure_category _ = none

-- `_deterministic_failures`, of calls of a type `C`
unfoldable pub deterministic_failures :
    {C : Type 0} → List (C × ToolResult) → List (C × ToolResult × ResultKind)
deterministic_failures [] = []
deterministic_failures ((call, result) ∷ executions) =
    let failures = deterministic_failures executions in
    if result.ok then failures else elim (failure_category result.kind) [
      | none ↦ failures
      | some category ↦ (call, result, category) ∷ failures
    ]

abbrev pub reset_failures : Failures
reset_failures = record {
  task_failure_fingerprint = none;
  task_failure_repeat_count = 0;
  task_saturated_invalid_calls = 0;
}

-- `fingerprint == context.task_failure_fingerprint`
abbrev pub is_repeated : Text → Option Text → Bool
is_repeated fingerprint none = false
is_repeated fingerprint (some last) = text_eq fingerprint last

-- The counts after a failing response.
unfoldable pub count_failure : Text → Bool → Failures → Failures
count_failure fingerprint saturated s = record {
  task_failure_fingerprint = some fingerprint;
  task_failure_repeat_count =
      if is_repeated fingerprint s.task_failure_fingerprint
      then s.task_failure_repeat_count + 1
      else 1;
  task_saturated_invalid_calls =
      if saturated then s.task_saturated_invalid_calls + 1 else s.task_saturated_invalid_calls;
}

abbrev pub decision : ProgressAction → Option ProgressReason → Bool → Failures → ProgressDecision
decision action reason saturated s = record {
  action = action;
  reason = reason;
  fingerprint = s.task_failure_fingerprint;
  repeat_count = s.task_failure_repeat_count;
  saturated_invalid_calls = s.task_saturated_invalid_calls;
  output_budget_saturated = saturated;
}

-- The decision on the counts.
unfoldable pub decide : Bool → Failures → ProgressDecision
decide saturated s =
    let repeated_saturated = saturated && leb 2 s.task_failure_repeat_count in
    let saturation_exhausted = leb 3 s.task_saturated_invalid_calls in
    let repeated_failure = leb 3 s.task_failure_repeat_count in
    if repeated_saturated || saturation_exhausted || repeated_failure
    then decision ProgressAction.stop
        (some (
          if repeated_saturated || saturation_exhausted
          then ProgressReason.output_budget_saturated
          else ProgressReason.repeated_invalid_tool_call))
        saturated s
    else if saturated
    then decision ProgressAction.retry (some ProgressReason.output_budget_saturated) saturated s
    else if s.task_failure_repeat_count == 2
    then decision ProgressAction.retry (some ProgressReason.repeated_invalid_tool_call) saturated s
    else decision ProgressAction.continue none saturated s

-- Whether the response used its whole output budget.
abbrev pub is_saturated : ℕ → ℕ → Bool
is_saturated max_output_tokens output_tokens =
    ltb 0 max_output_tokens && leb max_output_tokens output_tokens

-- The fingerprint of the failures, a hash of their JSON, is the parameter `fingerprint`.
module _ {C : Type 0} (fingerprint : List (C × ToolResult × ResultKind) → Text) where
  abbrev pub evaluate_failures :
      List (C × ToolResult × ResultKind) → ℕ → ℕ → Failures → ProgressDecision × Failures
  evaluate_failures [] limit tokens s =
      (decision ProgressAction.continue none false reset_failures, reset_failures)
  evaluate_failures (f ∷ fs) limit tokens s =
      let saturated = is_saturated limit tokens in
      let s' = count_failure (fingerprint (f ∷ fs)) saturated s in (decide saturated s', s')

  unfoldable pub evaluate : List (C × ToolResult) → ℕ → ℕ → Failures → ProgressDecision × Failures
  evaluate executions limit tokens s =
      evaluate_failures (deterministic_failures executions) limit tokens s

  -- Unless the policy stops the task, no failure has come three times in a row and no three
  -- failing responses were saturated.
  pub evaluate-bounded :
      (executions : List (C × ToolResult)) (limit tokens : ℕ) (s : Failures)
      → (evaluate executions limit tokens s).0.action ≢ ProgressAction.stop
      → ((evaluate executions limit tokens s).1.task_failure_repeat_count ≤ 2)
        × ((evaluate executions limit tokens s).1.task_saturated_invalid_calls ≤ 2)
  unfolding evaluate decide count_failure
  evaluate-bounded executions limit tokens s h = ground arith

  third-stops :
      (f1 f2 f3 : List (C × ToolResult × ResultKind)) (l1 l2 l3 t1 t2 t3 : ℕ) (s : Failures)
      → is_nil f1 ≡ false
      → is_nil f2 ≡ false
      → is_nil f3 ≡ false
      → fingerprint f2 ≡ fingerprint f1
      → fingerprint f3 ≡ fingerprint f1
      → (evaluate_failures f3 l3 t3
          (evaluate_failures f2 l2 t2 (evaluate_failures f1 l1 t1 s).1).1).0.action
        ≡ ProgressAction.stop
  unfolding decide count_failure
  third-stops [] f2 f3 l1 l2 l3 t1 t2 t3 s n1 n2 n3 p q = ground arith
  third-stops (x ∷ f1) [] f3 l1 l2 l3 t1 t2 t3 s n1 n2 n3 p q = ground arith
  third-stops (x ∷ f1) (y ∷ f2) [] l1 l2 l3 t1 t2 t3 s n1 n2 n3 p q = ground arith
  third-stops (x ∷ f1) (y ∷ f2) (z ∷ f3) l1 l2 l3 t1 t2 t3 s n1 n2 n3 p q =
      rw (p, q) (ground (arith, text_eq_refl (fingerprint (x ∷ f1))))

  -- Three responses in a row that have failing calls with the same fingerprint stop the task at the
  -- third, whatever its state was, whatever calls succeeded beside them, and whatever tokens each
  -- response used.
  pub evaluate-third :
      (e1 e2 e3 : List (C × ToolResult)) (l1 l2 l3 t1 t2 t3 : ℕ) (s : Failures)
      → is_nil (deterministic_failures e1) ≡ false
      → is_nil (deterministic_failures e2) ≡ false
      → is_nil (deterministic_failures e3) ≡ false
      → fingerprint (deterministic_failures e2) ≡ fingerprint (deterministic_failures e1)
      → fingerprint (deterministic_failures e3) ≡ fingerprint (deterministic_failures e1)
      → (evaluate e3 l3 t3 (evaluate e2 l2 t2 (evaluate e1 l1 t1 s).1).1).0.action
        ≡ ProgressAction.stop
  unfolding evaluate
  evaluate-third e1 e2 e3 l1 l2 l3 t1 t2 t3 s n1 n2 n3 p q =
      third-stops (deterministic_failures e1) (deterministic_failures e2)
        (deterministic_failures e3) l1 l2 l3 t1 t2 t3 s n1 n2 n3 p q

-- TaskCallBudget, on counts that are not negative
pub record TaskCallBudget : Type 0 where
  pub max_calls : ℕ
  pub used_calls : ℕ
  pub remaining_calls : ℕ

unfoldable pub from_limits : ℕ → ℕ → TaskCallBudget
from_limits max_calls used_calls =
    let bounded_max = max max_calls 1 in
    let bounded_used = min used_calls bounded_max in
    record {
      max_calls = bounded_max;
      used_calls = bounded_used;
      remaining_calls = bounded_max - bounded_used;
    }

abbrev pub approaching_limit : TaskCallBudget → Bool
approaching_limit b = leb b.remaining_calls 5

-- A budget always adds up, has a positive limit, and one more used call leaves one call less
-- until none is left.
pub from_limits-adds :
    (max_calls used_calls : ℕ)
    → ((from_limits max_calls used_calls).used_calls
          + (from_limits max_calls used_calls).remaining_calls
        ≡ (from_limits max_calls used_calls).max_calls)
      × (1 ≤ (from_limits max_calls used_calls).max_calls)
      × ((from_limits max_calls (suc used_calls)).remaining_calls
          ≡ (from_limits max_calls used_calls).remaining_calls - 1)
unfolding from_limits
from_limits-adds max_calls used_calls = (omega arith, omega arith, omega arith)

-- A test result, of which the policy reads these; none is no result.
pub record TestResult : Type 0 where
  pub ok : Bool
  pub repair_injected : Bool

-- `should_inject_retry`
unfoldable pub should_inject_retry : Option TestResult → ℕ → ℕ → Bool
should_inject_retry none attempts limit = false
should_inject_retry (some test) attempts limit =
    not test.ok && not test.repair_injected && ltb attempts limit
