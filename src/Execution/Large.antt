-- ===== src/Execution/Large.antt =====
-- src/runtime/hooks/policy.py: large_output_hook.
use local_coding_agent_harne.Prelude.{
  ℕ, ◌≤◌, ◌<◌, ◌≡◌, ◌⊎◌, refl, Bool, true, false, leb, Option, none, some, List, [], ◌∷◌, ◌++◌,
  length, Text, codes, arith, Bool-cases, inl, inr, if◌then◌else◌,
}
use local_coding_agent_harne.Execution.Output.{
  digits, bounded_output_message, bounded_output_message-length,
}

-- What the hook reads and writes of a result, and the artifact that the session knows for a call.
pub record OutputResult : Type 0 where
  pub content : Text
  pub artifact_id : Option Text
  pub persisted : Option Bool
  pub truncated : Bool

pub record Output : Type 0 where
  pub result : OutputResult
  pub tool_result_artifacts : List (Text × Text)

-- `_register_artifact_reference`: the newest entry for a call stands first.
unfoldable pub register_artifact_reference : Text → Text → List (Text × Text) → List (Text × Text)
register_artifact_reference call artifact entries = (call, artifact) ∷ entries

abbrev pub register_given : Text → Option Text → List (Text × Text) → List (Text × Text)
register_given call none entries = entries
register_given call (some []) entries = entries
register_given call (some (c ∷ rest)) entries = register_artifact_reference call (c ∷ rest) entries

abbrev pub error_prefix : ℕ → Text
error_prefix chars =
    codes "<persisted-output-error>"
    ++ (10 ∷ codes "Output too large (")
    ++ digits chars
    ++ codes " chars) and artifact persistence failed."
    ++ (10 ∷ codes "Only this preview is available:")
    ++ 10 ∷ []

abbrev pub persisted_prefix : ℕ → Text → Text
persisted_prefix chars artifact =
    codes "<persisted-output>"
    ++ (10 ∷ codes "Output too large (")
    ++ digits chars
    ++ codes " chars)."
    ++ (10 ∷ codes "artifact_id: ")
    ++ artifact
    ++ (10 ∷ codes "Use read_artifact with this id for additional slices.")
    ++ (10 ∷ codes "Preview (head and tail):")
    ++ 10 ∷ []

-- The result once the content has been offered to the store, which gives the artifact's id or fails.
abbrev pub replace_output : ℕ → Text → Option Text → Output → Output
replace_output max_chars call none output = record output {
  result = record {
    content =
        bounded_output_message (error_prefix (length output.result.content)) output.result.content
          (10 ∷ codes "</persisted-output-error>") max_chars;
    artifact_id = output.result.artifact_id;
    persisted = some false;
    truncated = true;
  };
}
replace_output max_chars call (some artifact) output = record {
  result = record {
    content =
        bounded_output_message (persisted_prefix (length output.result.content) artifact)
          output.result.content (10 ∷ codes "</persisted-output>") max_chars;
    artifact_id = some artifact;
    persisted = some true;
    truncated = true;
  };
  tool_result_artifacts = register_artifact_reference call artifact output.tool_result_artifacts;
}

-- `large_output_hook`; `persist` is the artifact store, `none` where it raises.
unfoldable pub large_output_hook : (Text → Text → Option Text) → ℕ → Text → Output → Output
large_output_hook persist max_chars call output =
    let known = record output {
      tool_result_artifacts =
          register_given call output.result.artifact_id output.tool_result_artifacts;
    } in
    if leb (length output.result.content) max_chars
    then known
    else replace_output max_chars call (persist call output.result.content) known

replace_output-length :
    (max_chars : ℕ) (call : Text) (artifact : Option Text) (output : Output)
    → length (replace_output max_chars call artifact output).result.content ≤ max_chars
replace_output-length max_chars call none output =
    (bounded_output_message-length (error_prefix (length output.result.content))
      output.result.content (10 ∷ codes "</persisted-output-error>") max_chars).0
replace_output-length max_chars call (some artifact) output =
    (bounded_output_message-length (persisted_prefix (length output.result.content) artifact)
      output.result.content (10 ∷ codes "</persisted-output>") max_chars).0

-- After the hook no content has more characters than the limit, and a content within the limit is
-- the same as before.
pub large_output_hook-length :
    (persist : Text → Text → Option Text) (max_chars : ℕ) (call : Text) (output : Output)
    → let after = (large_output_hook persist max_chars call output).result.content in
      (length after ≤ max_chars)
      × ((after ≡ output.result.content) ⊎ (max_chars < length output.result.content))
unfolding large_output_hook
large_output_hook-length persist max_chars call output =
    let size = length output.result.content in
    let known = record output {
      tool_result_artifacts =
          register_given call output.result.artifact_id output.tool_result_artifacts;
    } in
    elim (Bool-cases (leb size max_chars)) [
      | inl s ↦ rw s (ground arith, inl refl)
      | inr l ↦ rw l (
        replace_output-length max_chars call (persist call output.result.content) known,
        inr (ground arith),
      )
    ]
