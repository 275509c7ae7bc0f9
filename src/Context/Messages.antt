-- ===== src/Context/Messages.antt =====
-- The messages of a conversation, as src/runtime/context/manager.py reads them: the blocks of a
-- content of blocks by their type, and the marker of src/runtime/context/checkpoint.py.
use local_coding_agent_harne.Prelude.{Bool, false, List, [], ◌∷◌, Text, codes, is_prefix}

pub data Role : Type 0 where
  user assistant other_role : Role

-- `tool_use` and `tool_result` have the id of the call; any other block has its text.
pub data Block : Type 0 where
  tool_use tool_result other_block : Text → Block

pub data Content : Type 0 where
  text : Text → Content
  blocks : List Block → Content

pub record Message : Type 0 where
  pub role : Role
  pub content : Content

abbrev pub use_ids : List Block → List Text
use_ids [] = []
use_ids (Block.tool_use id ∷ rest) = id ∷ use_ids rest
use_ids (Block.tool_result id ∷ rest) = use_ids rest
use_ids (Block.other_block value ∷ rest) = use_ids rest

abbrev pub result_ids : List Block → List Text
result_ids [] = []
result_ids (Block.tool_use id ∷ rest) = result_ids rest
result_ids (Block.tool_result id ∷ rest) = id ∷ result_ids rest
result_ids (Block.other_block value ∷ rest) = result_ids rest

abbrev pub use_ids_of : Role → Content → List Text
use_ids_of Role.assistant (Content.blocks list) = use_ids list
use_ids_of _ _ = []

abbrev pub result_ids_of : Role → Content → List Text
result_ids_of Role.user (Content.blocks list) = result_ids list
result_ids_of _ _ = []

-- `_tool_use_ids` and `_tool_result_ids`
unfoldable pub tool_use_ids : Message → List Text
tool_use_ids message = use_ids_of message.role message.content

unfoldable pub tool_result_ids : Message → List Text
tool_result_ids message = result_ids_of message.role message.content

abbrev pub context_checkpoint_prefix : Text
context_checkpoint_prefix = codes "[Context checkpoint v3]"

abbrev pub is_checkpoint_of : Role → Content → Bool
is_checkpoint_of Role.user (Content.text value) = is_prefix context_checkpoint_prefix value
is_checkpoint_of _ _ = false

unfoldable pub is_checkpoint_message : Message → Bool
is_checkpoint_message message = is_checkpoint_of message.role message.content
