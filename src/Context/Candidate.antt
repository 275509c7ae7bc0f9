-- ===== src/Context/Candidate.antt =====
-- src/runtime/context/manager.py: the candidate of a rebase, with a summary by the model or without.
use local_coding_agent_harne.Prelude.{
  ℕ, ◌+◌, ◌-◌, min, Bool, true, false, not, ◌||◌, Option, none, some, List, [], ◌∷◌, length, leb,
  ltb, ◌==◌, is_nil, all_of, Text, codes, Outcome, ok, err, if◌then◌else◌,
}
use local_coding_agent_harne.Context.Budget.{estimate_text_tokens}
use local_coding_agent_harne.Context.Messages.{Message, Role, Content, is_checkpoint_message}
use local_coding_agent_harne.Context.Rounds.{
  Item, messages_of, MessageGroup, RemovedTrajectoryItem, protocol_is_complete,
}
use local_coding_agent_harne.Context.Rounds.Regrouping.{flat}

-- What the compaction reads and writes of a session. `sources` is what the projector keeps of the
-- files that the model has seen.
pub record Usage : Type 0 where
  pub input_tokens : ℕ
  pub cache_creation_input_tokens : ℕ
  pub cache_read_input_tokens : ℕ
  pub output_tokens : ℕ

pub record ContextState (Sources : Type 0) : Type 0 where
  pub messages : List Message
  pub message_audit_ordinals : List (Option ℕ)
  pub conversation_length : ℕ
  pub history_window_starts : List ℕ
  pub context_generation : ℕ
  pub context_compactions : ℕ
  pub last_model_consumed_message_count : ℕ
  pub last_model_usage : Option Usage
  pub last_model_usage_message_index : Option ℕ
  pub last_model_usage_generation : Option ℕ
  pub last_model_usage_local_input_tokens : Option ℕ
  pub last_auto_compaction_failed_generation : Option ℕ
  pub sources : Sources

pub record AuthoritativeState : Type 0 where
  pub serialized : Text
  pub actual_tokens : ℕ

-- `detail` is left out of a RebaseFailure.
pub data RebaseFailure : Type 0 where
  checkpoint_construction shared_checkpoint_overflow no_candidate : RebaseFailure
  semantic_preflight provider_call malformed_output : RebaseFailure
  emergency_recovery_state emergency_construction final_candidate_rejection : RebaseFailure

-- The checkpoint builder of src/runtime/context/checkpoint.py and the model client, as far as the
-- manager calls them; `none` where they raise, and where there is no client. The emergency state
-- comes with the answer whether it records exactly the removed ranges.
pub record CheckpointBuilder (Sources : Type 0) : Type 0 where
  pub wrapper_tokens : ℕ
  pub skeleton_tokens : ℕ
  pub authoritative_state : ContextState Sources → ℕ → Option AuthoritativeState
  pub emergency_state : ContextState Sources → List ℕ → ℕ → Option (AuthoritativeState × Bool)
  pub semantic_actual_max : ContextState Sources → AuthoritativeState → ℕ
  pub extract_semantic_handoff : Message → Option Text
  pub semantic_system : Text
  pub semantic_input :
      ContextState Sources
      → List RemovedTrajectoryItem
      → Option Text
      → AuthoritativeState
      → Option (List Message)
  pub call_model : List Message → ℕ → Option Text
  pub validate_semantic_output : Text → ℕ → Option Text
  pub serialize_checkpoint : Text → Text → Option Text

-- The configuration, and `measure`, the estimate of a list of messages, whose rendering is not
-- code of the repository. `tools` is the rendering of the tools.
pub record Settings : Type 0 where
  pub measure : List Message → ℕ
  pub system : Text
  pub tools : Text
  pub window_tokens : ℕ
  pub scaled_window : ℕ
  pub max_output_tokens : ℕ
  pub safety_margin_tokens : ℕ
  pub post_rebase_ceiling_tokens : ℕ
  pub recent_raw_tokens : ℕ

pub record ContextSnapshot : Type 0 where
  pub items : List Item
  pub local_input_tokens : ℕ
  pub hard_input_limit_tokens : ℕ
  pub generation : ℕ

pub record FullRebaseCandidate : Type 0 where
  pub items : List Item
  pub removed : List RemovedTrajectoryItem
  pub local_input_tokens_after : ℕ
  pub emergency_fallback : Bool

abbrev pub combined_checkpoint_max_tokens : ℕ
combined_checkpoint_max_tokens = 12288

abbrev pub emergency_deterministic_reserve : ℕ
emergency_deterministic_reserve = 4096

abbrev pub emergency_semantic_payload : Text
emergency_semantic_payload =
    codes
      "Unavailable after hard-pressure compaction failure; recover removed trajectory using the authoritative History ranges."

unfoldable pub estimate_input_tokens : Settings → Text → Text → List Message → ℕ
estimate_input_tokens settings system tools messages =
    estimate_text_tokens system + estimate_text_tokens tools + settings.measure messages

module _ {A B : Type 0} where
  infixl 5 ◌>>=◌ ◌>>◌
  abbrev pub ◌>>=◌ :
      Outcome RebaseFailure A → (A → Outcome RebaseFailure B) → Outcome RebaseFailure B
  ok a >>= f = f a
  err e >>= f = err e

  abbrev pub ◌>>◌ : Outcome RebaseFailure A → Outcome RebaseFailure B → Outcome RebaseFailure B
  m >> n = m >>= λ _. n

-- `if not test: raise RebaseFailure(failure)`
abbrev pub guard : Bool → RebaseFailure → Outcome RebaseFailure (Unit {0})
guard true failure = ok tt
guard false failure = err failure

abbrev pub given : {A : Type 0} → Option A → RebaseFailure → Outcome RebaseFailure A
given (some a) failure = ok a
given none failure = err failure

-- `_snapshot`, of the messages and their ordinals
abbrev pub zip_items : List Message → List (Option ℕ) → List Item
zip_items [] ordinals = []
zip_items (message ∷ messages) [] =
    record { message = message; ordinal = none } ∷ zip_items messages []
zip_items (message ∷ messages) (ordinal ∷ ordinals) =
    record { message = message; ordinal = ordinal } ∷ zip_items messages ordinals

unfoldable pub snapshot_items : List Message → List (Option ℕ) → List Item
snapshot_items messages ordinals =
    if length ordinals == length messages
    then zip_items messages ordinals
    else zip_items messages []

-- `_require_meaningful_removal`
unfoldable pub is_meaningful_removal : List RemovedTrajectoryItem → Bool
is_meaningful_removal removed = not (
    is_nil removed
    || all_of (λ (r : RemovedTrajectoryItem). is_checkpoint_message (r.item.message)) removed)

-- The handoff of the first removed checkpoint.
unfoldable pub previous_handoff : (Message → Option Text) → List RemovedTrajectoryItem → Option Text
previous_handoff extract [] = none
previous_handoff extract (removed ∷ rest) =
    let later = previous_handoff extract rest in
    if is_checkpoint_message (removed.item.message) then extract (removed.item.message) else later

unfoldable pub removed_ordinals : List RemovedTrajectoryItem → List ℕ
removed_ordinals [] = []
removed_ordinals (removed ∷ rest) = elim (removed.item.ordinal) [
  | none ↦ removed_ordinals rest
  | some ordinal ↦ ordinal ∷ removed_ordinals rest
]

abbrev pub checkpoint_message : Text → Message
checkpoint_message checkpoint = record { role = Role.user; content = Content.text checkpoint }

abbrev pub with_checkpoint : Text → List MessageGroup → List Item
with_checkpoint checkpoint groups =
    record { message = checkpoint_message checkpoint; ordinal = none } ∷ flat groups

module _ {Sources : Type 0} (builder : CheckpointBuilder Sources) (settings : Settings) where
  -- `estimate_input_tokens(system, ·, tools)`
  abbrev pub request_tokens : List Message → ℕ
  request_tokens messages =
      estimate_input_tokens settings (settings.system) (settings.tools) messages

  -- `_assemble_candidate`
  unfoldable pub assemble_candidate :
      ContextSnapshot
      → AuthoritativeState
      → Text
      → List MessageGroup
      → List RemovedTrajectoryItem
      → Bool
      → Outcome RebaseFailure FullRebaseCandidate
  assemble_candidate snapshot deterministic semantic groups removed emergency = do
    checkpoint ←
        given (builder.serialize_checkpoint deterministic.serialized semantic)
          RebaseFailure.shared_checkpoint_overflow
    guard (leb (estimate_text_tokens checkpoint) combined_checkpoint_max_tokens)
        RebaseFailure.shared_checkpoint_overflow
    guard
        (leb (request_tokens (messages_of (with_checkpoint checkpoint groups)))
          (settings.post_rebase_ceiling_tokens))
        RebaseFailure.final_candidate_rejection
    guard
        (ltb (request_tokens (messages_of (with_checkpoint checkpoint groups)))
          snapshot.local_input_tokens)
        RebaseFailure.final_candidate_rejection
    guard
        (ltb (request_tokens (messages_of (with_checkpoint checkpoint groups)))
          snapshot.hard_input_limit_tokens)
        RebaseFailure.final_candidate_rejection
    guard
        (protocol_is_complete (settings.measure) (messages_of (with_checkpoint checkpoint groups)))
        RebaseFailure.final_candidate_rejection
    ok record {
      items = with_checkpoint checkpoint groups;
      removed = removed;
      local_input_tokens_after = request_tokens (messages_of (with_checkpoint checkpoint groups));
      emergency_fallback = emergency;
    }

  -- `max(0, min(recent, capacity))`, where the subtraction stops at 0.
  abbrev pub raw_budget : ℕ → ℕ
  raw_budget reserved =
      min (settings.recent_raw_tokens)
        (settings.post_rebase_ceiling_tokens - request_tokens [] - reserved)
