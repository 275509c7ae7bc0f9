-- ===== src/Context/Rounds/Protocol.antt =====
-- The tool protocol of what a rebase keeps (src/runtime/context/manager.py).
use local_coding_agent_harne.Prelude.{
  ℕ, ◌≡◌, refl, sym, ap, ◌∙◌, Bool, true, ◌&&◌, List, [], ◌∷◌, map, length, all_of, All, Text,
  arith,
}
use local_coding_agent_harne.Context.Messages.{
  Message, Role, Content, tool_use_ids, tool_result_ids,
}
use local_coding_agent_harne.Context.Rounds.{
  Item, messages_of, MessageGroup, round_of, groups_from, group_messages_by_api_round,
  select_final_raw, protocol_is_complete, unlabelled,
}
use local_coding_agent_harne.Context.Rounds.Regrouping.{
  flat, flags, relabel, flags-relabel, flags-suffix,
}
use local_coding_agent_harne.Context.Rounds.Retained.{IsWhole}
use local_coding_agent_harne.Context.Rounds.Selection.{select_final_raw-IsSelected}

abbrev all_true : List Bool → Bool
all_true flags = all_of (λ (b : Bool). b) flags

complete-flags :
    (groups : List MessageGroup)
    → all_of (λ (g : MessageGroup). g.complete) groups ≡ all_true (flags groups)
complete-flags [] = refl
complete-flags (g ∷ groups) = ap (λ b. g.complete && b) (complete-flags groups)

whole-flags : (groups : List MessageGroup) → All IsWhole groups → all_true (flags groups) ≡ true
whole-flags [] h = refl
whole-flags (g ∷ groups) ((c, w), h) = rw (w, whole-flags groups h) refl

unlabelled-relabel :
    (measure : List Message → ℕ) (items : List Item)
    → unlabelled measure (messages_of items) ≡ map relabel items
unlabelled-relabel measure [] = refl
unlabelled-relabel measure (x ∷ items) =
    ap (λ xs. relabel x ∷ xs) (unlabelled-relabel measure items)

length-relabel : (items : List Item) → length (map relabel items) ≡ length items
length-relabel [] = refl
length-relabel (x ∷ items) = omega (arith, length-relabel items)

-- A checkpoint and the rounds that are kept of a conversation always pass the test of the tool
-- protocol, so no candidate is rejected for it.
pub select_final_raw-protocol :
    (measure : List Message → ℕ) (items : List Item) (budget : ℕ) (checkpoint : Text)
    → protocol_is_complete measure (
        record { role = Role.user; content = Content.text checkpoint }
        ∷ messages_of (flat (select_final_raw measure items budget).0))
      ≡ true
unfolding protocol_is_complete group_messages_by_api_round groups_from round_of tool_use_ids
    tool_result_ids
select_final_raw-protocol measure items budget checkpoint =
    let selected = (select_final_raw measure items budget).0 in
    let kept = flat selected in
    let s = select_final_raw-IsSelected measure items budget in
    let n = length (map relabel kept) in
    let now =
      flags-relabel measure (length kept) n 0 1 kept (omega arith)
        (omega (arith, length-relabel kept)) in
    let before =
      flags-relabel measure (length kept) (length kept) 0 0 kept (omega arith) (omega arith) in
    let ends =
      flags-suffix measure (length items) 0 items s.front selected (omega arith) s.rounds in
    ap (λ xs. all_of (λ (g : MessageGroup). g.complete) (groups_from measure (length xs) 1 xs))
      (unlabelled-relabel measure kept)
    ∙ complete-flags (groups_from measure n 1 (map relabel kept))
    ∙ ap all_true (now ∙ sym before ∙ ends)
    ∙ whole-flags selected s.kept
