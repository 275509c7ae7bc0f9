-- ===== src/Samples/Calls.antt =====
-- The theorems on tool calls, on the policies that bound a task, and on the lines read of a file.
use local_coding_agent_harne.Prelude.{
  ℕ, ◌+◌, ◌≡◌, refl, Bool, true, false, none, some, List, [], ◌∷◌, Text, codes, Outcome, arith,
}
use local_coding_agent_harne.Execution.{
  ToolResult, ResultKind, failure, Tool, Hooks, resolve, execute,
}
use local_coding_agent_harne.Execution.Safety.{Ends, execute-Ends}
use local_coding_agent_harne.Execution.Progress.{
  ProgressAction, reset_failures, deterministic_failures, evaluate, evaluate-third,
}
use local_coding_agent_harne.Context.SourceState.{
  Range, merge_ranges, with_incoming, SourceReadState, record_range,
}
use local_coding_agent_harne.Context.SourceState.Merging.{IsMerged, covers, merge_ranges_lem}
use local_coding_agent_harne.Context.SourceState.Counting.{IsExactRead, record_range-IsExactRead}

-- The session counts the calls of the tool.
abbrev counter : Tool ℕ
counter = record {
  name = codes "count";
  is_available = λ w. true;
  validate = λ w. (Outcome.ok tt, w);
  call = λ w. (
    Outcome.ok (record { ok = true; content = []; error = none; kind = ResultKind.returned }),
    w + 1,
  );
}

abbrev hooks : Hooks ℕ
hooks = record { pre_tool_validate = []; pre_tool_use = []; post_tool_use = [] }

abbrev shown : ℕ → Text → Bool
shown w name = true

execute-Ends_example :
    Ends hooks
      (resolve shown (counter ∷ []) (codes "count") 0)
      0
      (execute hooks shown (counter ∷ []) (codes "count") 0)
execute-Ends_example = execute-Ends hooks shown (counter ∷ []) (codes "count") 0

abbrev fingerprint : List (ℕ × ToolResult × ResultKind) → Text
fingerprint failures = codes "f"

abbrev failing : List (ℕ × ToolResult)
failing = (0, failure ResultKind.unknown_tool [] []) ∷ []

abbrev succeeded : ToolResult
succeeded = record { ok = true; content = []; error = none; kind = ResultKind.returned }

-- The second response has a successful call beside the failing one, and the third uses more tokens.
evaluate-third_example :
    (evaluate fingerprint failing 100 9
      (evaluate fingerprint
        ((1, succeeded) ∷ failing)
        100
        5
        (evaluate fingerprint failing 100 5 reset_failures).1).1).0.action
    ≡ ProgressAction.stop
unfolding deterministic_failures
evaluate-third_example =
    evaluate-third fingerprint failing ((1, succeeded) ∷ failing) failing 100 100 100 5 5 9
      reset_failures refl refl refl refl refl

abbrev ranges : List Range
ranges = (0, 3) ∷ (5, 8) ∷ []

ranges-IsMerged : IsMerged ranges
ranges-IsMerged = (omega arith, (omega arith, omega arith, tt))

merge_ranges_lem_example :
    IsMerged (merge_ranges ranges (some (2, 6)))
    × ((x : ℕ)
        → covers (merge_ranges ranges (some (2, 6))) x
          ≡ covers (with_incoming ranges (some (2, 6))) x)
merge_ranges_lem_example = merge_ranges_lem ranges (some (2, 6))

abbrev state : SourceReadState
state = record {
  source_path = codes "a";
  sha256 = [];
  total_lines = 8;
  covered_ranges = ranges;
  fully_scanned = false;
  last_read_turn = none;
  observation_ids = [];
  projected_observation_ids = [];
}

record_range-IsExactRead_example :
    IsExactRead state 2 6 (record_range state 2 6 none).0 (record_range state 2 6 none).1
record_range-IsExactRead_example = record_range-IsExactRead state 2 6 none ranges-IsMerged
