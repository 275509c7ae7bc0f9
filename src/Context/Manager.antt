-- ===== src/Context/Manager.antt =====
-- src/runtime/context/manager.py: ContextManager.prepare_context and its candidates.
pub mod Committed
pub mod Prepared
use local_coding_agent_harne.Prelude.{
  ℕ, zero, suc, ◌+◌, ◌-◌, min, max, Bool, true, false, not, ◌&&◌, ◌||◌, Option, none, some, is_none,
  List, [], ◌∷◌, ◌++◌, map, length, drop, leb, ltb, ◌==◌, is_nil, Text, codes, Outcome, ok, err,
  if◌then◌else◌,
}
use local_coding_agent_harne.Context.Budget.{
  ContextMeasurement, estimate_text_tokens, measure_context, normalize_provider_context_anchor,
}
use local_coding_agent_harne.Context.Messages.{Message}
use local_coding_agent_harne.Context.Rounds.{
  Item, messages_of, RemovedTrajectoryItem, select_final_raw,
}
use local_coding_agent_harne.Context.Candidate.{
  Usage, ContextState, RebaseFailure, CheckpointBuilder, Settings, ContextSnapshot,
  FullRebaseCandidate, estimate_input_tokens, ◌>>=◌, ◌>>◌, guard, given, snapshot_items,
  is_meaningful_removal, previous_handoff, removed_ordinals, emergency_deterministic_reserve,
  emergency_semantic_payload, assemble_candidate, request_tokens, raw_budget,
}

-- `reason`: "context_overflow" or "provider_overflow", "hard" or "hard_pressure", or another.
pub data CallReason : Type 0 where
  overflow hard other_reason : CallReason

abbrev pub is_overflow : CallReason → Bool
is_overflow CallReason.overflow = true
is_overflow _ = false

abbrev pub is_hard : CallReason → Bool
is_hard CallReason.hard = true
is_hard _ = false

pub record ContextPreparation : Type 0 where
  pub measurement : ContextMeasurement
  pub compacted : Bool
  pub saved_tokens : ℕ
  pub failure_reason : Option RebaseFailure

abbrev pub uncompacted : ContextMeasurement → Option RebaseFailure → ContextPreparation
uncompacted measurement failure = record {
  measurement = measurement;
  compacted = false;
  saved_tokens = 0;
  failure_reason = failure;
}

abbrev pub should_rebase : ContextMeasurement → Bool
should_rebase measurement = not (is_none measurement.trigger_reason)

abbrev pub has_hard_pressure : ContextMeasurement → Bool
has_hard_pressure measurement =
    leb measurement.hard_input_limit_tokens measurement.pressure_input_tokens

-- The rendering of no tools.
abbrev pub empty_tools : Text
empty_tools = codes "[]"

abbrev pub option_is : Option ℕ → ℕ → Bool
option_is none n = false
option_is (some a) n = a == n

abbrev pub appended_tokens : (List Message → ℕ) → List Message → ℕ
appended_tokens measure [] = 0
appended_tokens measure (message ∷ messages) = measure (message ∷ messages)

module _ {Sources : Type 0} where
  -- The anchor from the four facts that it needs.
  abbrev pub anchor_of :
      (List Message → ℕ) → ContextState Sources → ℕ → Option Usage → Option ℕ → Option ℕ → Option ℕ
  anchor_of measure context current (some usage) (some index) (some matching) =
      if option_is (context.last_model_usage_generation) (context.context_generation)
        && ltb index (length (context.messages))
      then some (
          max
            (normalize_provider_context_anchor matching usage.input_tokens
              usage.cache_creation_input_tokens usage.cache_read_input_tokens usage.output_tokens
              (appended_tokens measure (drop (index + 1) (context.messages))))
            (min current matching))
      else none
  anchor_of measure context current _ _ _ = none

  -- `_provider_context_anchor`
  unfoldable pub provider_context_anchor : (List Message → ℕ) → ContextState Sources → ℕ → Option ℕ
  provider_context_anchor measure context current =
      anchor_of measure context current (context.last_model_usage)
        (context.last_model_usage_message_index) (context.last_model_usage_local_input_tokens)

  -- `_measure`
  unfoldable pub measure : Settings → ContextState Sources → ContextMeasurement
  measure settings context =
      let current =
        estimate_input_tokens settings (settings.system) (settings.tools) (context.messages) in
      measure_context current (provider_context_anchor (settings.measure) context current)
        (settings.window_tokens) (settings.scaled_window) (settings.max_output_tokens)
        (settings.safety_margin_tokens)

  -- Session.mark_context_changed
  unfoldable pub mark_context_changed : ContextState Sources → ContextState Sources
  mark_context_changed context = record context {
    history_window_starts = context.history_window_starts ++ context.conversation_length ∷ [];
    context_generation = context.context_generation + 1;
    last_model_usage = none;
    last_model_usage_message_index = none;
    last_model_usage_generation = none;
    last_model_usage_local_input_tokens = none;
  }

  -- `project` is what the projector notes of the sources that the removed messages showed.
  unfoldable pub commit_candidate :
      (List Message → Sources → Sources)
      → ContextState Sources
      → FullRebaseCandidate
      → ContextState Sources
  commit_candidate project context candidate = mark_context_changed record context {
    messages = messages_of (candidate.items);
    message_audit_ordinals = map (λ (item : Item). item.ordinal) (candidate.items);
    sources =
        project (map (λ (r : RemovedTrajectoryItem). r.item.message) (candidate.removed))
          (context.sources);
    context_compactions = context.context_compactions + 1;
    last_model_consumed_message_count = 0;
  }

  module _ (builder : CheckpointBuilder Sources) (settings : Settings) where
    -- `_build_semantic_candidate`
    unfoldable pub build_semantic_candidate :
        ContextState Sources → ContextSnapshot → Outcome RebaseFailure FullRebaseCandidate
    build_semantic_candidate context snapshot = do
      deterministic ←
          given (builder.authoritative_state context (snapshot.generation + 1))
            RebaseFailure.checkpoint_construction
      guard (leb (builder.skeleton_tokens) (builder.semantic_actual_max context deterministic))
          RebaseFailure.shared_checkpoint_overflow
      selection ← ok (
          select_final_raw (settings.measure) snapshot.items (
            raw_budget builder settings (
              deterministic.actual_tokens
              + builder.wrapper_tokens
              + builder.semantic_actual_max context deterministic)))
      guard (is_meaningful_removal (selection.1)) RebaseFailure.no_candidate
      messages ←
          given
            (builder.semantic_input context (selection.1)
              (previous_handoff (builder.extract_semantic_handoff) (selection.1)) deterministic)
            RebaseFailure.checkpoint_construction
      guard
          (leb
            (estimate_input_tokens settings (builder.semantic_system) empty_tools messages
              + builder.semantic_actual_max context deterministic
              + settings.safety_margin_tokens)
            (settings.window_tokens))
          RebaseFailure.semantic_preflight
      response ←
          given (builder.call_model messages (builder.semantic_actual_max context deterministic))
            RebaseFailure.provider_call
      semantic ←
          given
            (builder.validate_semantic_output response
              (builder.semantic_actual_max context deterministic))
            RebaseFailure.malformed_output
      assemble_candidate builder settings snapshot deterministic semantic (selection.0)
          (selection.1) false

    -- `_build_emergency_candidate`
    unfoldable pub build_emergency_candidate :
        ContextState Sources → ContextSnapshot → Outcome RebaseFailure FullRebaseCandidate
    build_emergency_candidate context snapshot = do
      selection ← ok (
          select_final_raw (settings.measure) snapshot.items (
            raw_budget builder settings (
              emergency_deterministic_reserve
              + builder.wrapper_tokens
              + estimate_text_tokens emergency_semantic_payload)))
      guard (is_meaningful_removal (selection.1)) RebaseFailure.no_candidate
      state ←
          given
            (builder.emergency_state context (removed_ordinals (selection.1))
              (snapshot.generation + 1))
            RebaseFailure.emergency_recovery_state
      guard (leb (state.0.actual_tokens) emergency_deterministic_reserve)
          RebaseFailure.emergency_recovery_state
      guard (state.1) RebaseFailure.emergency_recovery_state
      assemble_candidate builder settings snapshot (state.0) emergency_semantic_payload
          (selection.0) (selection.1) true

    -- The candidate that is tried last, once the first has failed with `failure`.
    abbrev pub or_emergency :
        Bool
        → ContextState Sources
        → ContextSnapshot
        → Outcome RebaseFailure FullRebaseCandidate
        → Outcome RebaseFailure FullRebaseCandidate
    or_emergency hard_pressure context snapshot (ok candidate) = ok candidate
    or_emergency true context snapshot (err failure) = build_emergency_candidate context snapshot
    or_emergency false context snapshot (err failure) = err failure

    abbrev pub snapshot_of : ContextState Sources → ContextMeasurement → ContextSnapshot
    snapshot_of context before = record {
      items = snapshot_items (context.messages) (context.message_audit_ordinals);
      local_input_tokens = before.local_input_tokens;
      hard_input_limit_tokens = before.hard_input_limit_tokens;
      generation = context.context_generation;
    }

    -- What becomes of a candidate.
    abbrev pub finish :
        (List Message → Sources → Sources)
        → ContextState Sources
        → ContextMeasurement
        → Bool
        → Outcome RebaseFailure FullRebaseCandidate
        → ContextPreparation × ContextState Sources
    finish project context before automatic (ok candidate) =
        let after = commit_candidate project context candidate in
        (
          record {
            measurement = measure settings after;
            compacted = true;
            saved_tokens = before.local_input_tokens - candidate.local_input_tokens_after;
            failure_reason = none;
          },
          after,
        )
    finish project context before automatic (err failure) = (
      uncompacted before (some failure),
      if automatic
          then record context {
            last_auto_compaction_failed_generation = some (context.context_generation);
          }
          else context,
    )

    -- `prepare_context`
    unfoldable pub prepare_context :
        (List Message → Sources → Sources)
        → Bool
        → CallReason
        → ContextState Sources
        → ContextPreparation × ContextState Sources
    prepare_context project force reason context =
        let before = measure settings context in
        let hard_pressure = is_overflow reason || has_hard_pressure before in
        let explicit = force && not (is_overflow reason) && not (is_hard reason) in
        let suppressed =
          option_is (context.last_auto_compaction_failed_generation) (context.context_generation) in
        let automatic = not hard_pressure && not explicit in
        let snapshot = snapshot_of context before in
        if not force && not (should_rebase before)
        then (uncompacted before none, context)
        else if automatic && suppressed
        then (uncompacted before none, context)
        else finish project context before automatic (
            or_emergency hard_pressure context snapshot (build_semantic_candidate context snapshot))
