-- ===== src/Samples/Contexts.antt =====
-- The theorems on the compaction of a context, on a conversation of four messages.
use local_coding_agent_harne.Prelude.{
  ℕ, ◌*◌, ◌≡◌, ◌⊎◌, true, false, none, some, List, [], ◌∷◌, codes, length,
}
use local_coding_agent_harne.Context.Messages.{Message, Role, Block, Content}
use local_coding_agent_harne.Context.Rounds.{
  Item, messages_of, select_final_raw, protocol_is_complete,
}
use local_coding_agent_harne.Context.Rounds.Regrouping.{flat}
use local_coding_agent_harne.Context.Rounds.Selection.{IsSelected, select_final_raw-IsSelected}
use local_coding_agent_harne.Context.Rounds.Protocol.{select_final_raw-protocol}
use local_coding_agent_harne.Context.Candidate.{
  ContextState, AuthoritativeState, CheckpointBuilder, Settings,
}
use local_coding_agent_harne.Context.Manager.{CallReason, prepare_context}
use local_coding_agent_harne.Context.Manager.Prepared.{
  IsRebased, IsUntouched, prepare_context-IsRebased,
}
use local_coding_agent_harne.Agent.Recovery.{
  Recovering, IsRecovered, attempt_context_overflow_recovery,
  attempt_context_overflow_recovery-IsRecovered,
}

abbrev asked : Message
asked = record { role = Role.user; content = Content.text (codes "Fix the tests, please.") }

abbrev used : Message
used = record { role = Role.assistant; content = Content.blocks (Block.tool_use (codes "c1") ∷ []) }

abbrev answered : Message
answered = record {
  role = Role.user;
  content = Content.blocks (Block.tool_result (codes "c1") ∷ []);
}

abbrev said : Message
said = record { role = Role.assistant; content = Content.text (codes "Done.") }

abbrev labelled : ℕ → Message → Item
labelled n message = record { message = message; ordinal = some n }

abbrev items : List Item
items = labelled 0 asked ∷ labelled 1 used ∷ labelled 2 answered ∷ labelled 3 said ∷ []

-- Ten tokens for each message.
abbrev measure : List Message → ℕ
measure messages = 10 * length messages

select_final_raw-IsSelected_example : IsSelected measure items 35
select_final_raw-IsSelected_example = select_final_raw-IsSelected measure items 35

select_final_raw-protocol_example :
    protocol_is_complete measure (
      record { role = Role.user; content = Content.text (codes "checkpoint") }
      ∷ messages_of (flat (select_final_raw measure items 35).0))
    ≡ true
select_final_raw-protocol_example = select_final_raw-protocol measure items 35 (codes "checkpoint")

abbrev state : AuthoritativeState
state = record { serialized = codes "state"; actual_tokens = 2 }

abbrev builder : CheckpointBuilder (List Message)
builder = record {
  wrapper_tokens = 1;
  skeleton_tokens = 1;
  authoritative_state = λ context generation. some state;
  emergency_state = λ context ordinals generation. some (state, true);
  semantic_actual_max = λ context deterministic. 5;
  extract_semantic_handoff = λ message. none;
  semantic_system = codes "summarize";
  semantic_input = λ context removed handoff deterministic. some [];
  call_model = λ messages limit. some (codes "summary");
  validate_semantic_output = λ text limit. some text;
  serialize_checkpoint = λ deterministic semantic. some (codes "checkpoint");
}

abbrev settings : Settings
settings = record {
  measure = measure;
  system = codes "system";
  tools = codes "[]";
  window_tokens = 60;
  scaled_window = 30;
  max_output_tokens = 10;
  safety_margin_tokens = 5;
  post_rebase_ceiling_tokens = 40;
  recent_raw_tokens = 20;
}

abbrev context : ContextState (List Message)
context = record {
  messages = messages_of items;
  message_audit_ordinals = some 0 ∷ some 1 ∷ some 2 ∷ some 3 ∷ [];
  conversation_length = 4;
  history_window_starts = 0 ∷ [];
  context_generation = 0;
  context_compactions = 0;
  last_model_consumed_message_count = 3;
  last_model_usage = none;
  last_model_usage_message_index = none;
  last_model_usage_generation = none;
  last_model_usage_local_input_tokens = none;
  last_auto_compaction_failed_generation = none;
  sources = [];
}

-- The projector notes the removed messages.
abbrev project : List Message → List Message → List Message
project removed sources = removed

prepare_context-IsRebased_example :
    let (preparation, after) =
      prepare_context builder settings project false CallReason.other_reason context in
    IsRebased builder settings context preparation after
    ⊎ IsUntouched builder settings context preparation after
prepare_context-IsRebased_example =
    prepare_context-IsRebased builder settings project false CallReason.other_reason context

abbrev recovering : Recovering (List Message)
recovering = record { context = context; context_recovery_attempts = 1 }

attempt_context_overflow_recovery-IsRecovered_example :
    let (recovered, after) =
      attempt_context_overflow_recovery builder settings project 2 recovering in
    ((recovered ≡ true) × IsRecovered builder settings project 2 recovering after)
    ⊎ ((recovered ≡ false) × (after.context.messages ≡ recovering.context.messages))
attempt_context_overflow_recovery-IsRecovered_example =
    attempt_context_overflow_recovery-IsRecovered builder settings project 2 recovering
