-- ===== src/Context/Rounds.antt =====
-- src/runtime/context/manager.py: a conversation as a sequence of rounds, and what of it is kept.
-- An item is a message with its audit ordinal: `_snapshot` makes the two lists of one length.
pub mod Regrouping
pub mod Retained
pub mod Selection
pub mod Protocol
use local_coding_agent_harne.Prelude.{
  ℕ, zero, suc, ◌+◌, Bool, true, false, not, ◌&&◌, ◌||◌, Option, none, some, List, [], ◌∷◌, ◌++◌,
  map, reverse, length, leb, ltb, ◌==◌, is_nil, is_none, any_of, all_of, contains, Text,
  if◌then◌else◌,
}
use local_coding_agent_harne.Plan.Validation.{distinct, same_set}
use local_coding_agent_harne.Context.Messages.{
  Message, tool_use_ids, tool_result_ids, is_checkpoint_message,
}

pub record Item : Type 0 where
  pub message : Message
  pub ordinal : Option ℕ

abbrev pub messages_of : List Item → List Message
messages_of items = map (λ (item : Item). item.message) items

pub record MessageGroup : Type 0 where
  pub start : ℕ
  pub end : ℕ
  pub items : List Item
  pub tokens : ℕ
  pub complete : Bool

-- The variables of the inner loop, with the items it has taken and those that are left.
pub record Round : Type 0 where
  pub taken : List Item
  pub seen : List Text
  pub complete : Bool
  pub rest : List Item

-- `for tool_use_id in result_ids`
unfoldable pub see_results : List Text → List Text → Bool → List Text → List Text × Bool
see_results expected seen complete [] = (seen, complete)
see_results expected seen complete (id ∷ ids) =
    see_results expected (id ∷ seen) (complete && contains id expected && not (contains id seen))
      ids

-- `while index < len(messages) and seen != expected`
unfoldable pub take_results : List Text → List Text → Bool → List Item → Round
take_results expected seen complete [] = record {
  taken = [];
  seen = seen;
  complete = complete;
  rest = [];
}
take_results expected seen complete (item ∷ items) =
    let ids = tool_result_ids item.message in
    let (now_seen, now_complete) = see_results expected seen complete ids in
    let next = take_results expected now_seen now_complete items in
    if same_set seen expected
    then record { taken = []; seen = seen; complete = complete; rest = item ∷ items }
    else if is_nil ids
    then record { taken = []; seen = seen; complete = false; rest = item ∷ items }
    else record {
      taken = item ∷ next.taken;
      seen = next.seen;
      complete = next.complete;
      rest = next.rest;
    }

-- The round that begins with `item`.
unfoldable pub round_of : Item → List Item → Round
round_of item items =
    let expected = tool_use_ids item.message in
    let round = take_results expected [] (distinct expected) items in
    if is_nil expected
    then record {
      taken = [];
      seen = [];
      complete = is_nil (tool_result_ids item.message);
      rest = items;
    }
    else record {
      taken = round.taken;
      seen = round.seen;
      complete = round.complete && same_set round.seen expected;
      rest = round.rest;
    }

-- `measure` is `estimate_messages_tokens`, whose rendering to JSON is not code of the repository.
module _ (measure : List Message → ℕ) where
  abbrev pub group_of : ℕ → Item → Round → MessageGroup
  group_of start item round = record {
    start = start;
    end = start + length (item ∷ round.taken);
    items = item ∷ round.taken;
    tokens = measure (messages_of (item ∷ round.taken));
    complete = round.complete;
  }

  -- The loop of `_group_messages_by_api_round` from `start`; the fuel bounds its rounds.
  unfoldable pub groups_from : ℕ → ℕ → List Item → List MessageGroup
  groups_from zero start items = []
  groups_from (suc fuel) start [] = []
  groups_from (suc fuel) start (item ∷ items) =
      let round = round_of item items in
      let group = group_of start item round in group ∷ groups_from fuel group.end round.rest

  -- Each round takes a message, so there are at most as many as messages.
  unfoldable pub group_messages_by_api_round : List Item → List MessageGroup
  group_messages_by_api_round items = groups_from (length items) 0 items

  abbrev pub unlabelled : List Message → List Item
  unlabelled messages = map (λ (m : Message). record { message = m; ordinal = none }) messages

  unfoldable pub protocol_is_complete : List Message → Bool
  protocol_is_complete messages =
      all_of (λ (g : MessageGroup). g.complete) (group_messages_by_api_round (unlabelled messages))

abbrev pub has_checkpoint : MessageGroup → Bool
has_checkpoint group = any_of (λ (item : Item). is_checkpoint_message item.message) group.items

-- The loop over the groups stops at this one.
unfoldable pub is_stop : ℕ → ℕ → MessageGroup → Bool
is_stop budget used group =
    has_checkpoint group || not group.complete || ltb budget (used + group.tokens)

-- The loop over the groups, the last one first; it appends, so its result is in that order too.
unfoldable pub select_from : ℕ → ℕ → List MessageGroup → List MessageGroup
select_from budget used [] = []
select_from budget used (group ∷ groups) =
    let later = select_from budget (used + group.tokens) groups in
    if is_stop budget used group then [] else group ∷ later

pub record RemovedTrajectoryItem : Type 0 where
  pub item : Item
  pub trajectory_index : ℕ

-- `index in retained_indices`
abbrev pub is_retained : List MessageGroup → ℕ → Bool
is_retained selected index =
    any_of (λ (g : MessageGroup). leb g.start index && ltb index g.end) selected

unfoldable pub removed_from : List MessageGroup → ℕ → List Item → List RemovedTrajectoryItem
removed_from selected index [] = []
removed_from selected index (item ∷ items) =
    let later = removed_from selected (index + 1) items in
    if is_retained selected index
    then later
    else record { item = item; trajectory_index = index } ∷ later

-- `_select_final_raw`
unfoldable pub select_final_raw :
    (List Message → ℕ) → List Item → ℕ → List MessageGroup × List RemovedTrajectoryItem
select_final_raw measure items budget =
    let groups = group_messages_by_api_round measure items in
    let selected = reverse (select_from budget 0 (reverse groups)) in
    (selected, removed_from selected 0 items)
