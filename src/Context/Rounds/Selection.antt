-- ===== src/Context/Rounds/Selection.antt =====
-- The selection of `_select_final_raw` as a whole (src/runtime/context/manager.py).
use mathlib.Core.List.{reverse-append, reverse-reverse}
use local_coding_agent_harne.Prelude.{
  ℕ, ◌+◌, ◌≤◌, ◌≡◌, refl, sym, ap, ◌∙◌, subst, List, ◌++◌, reverse, length, All, arith,
}
use local_coding_agent_harne.Context.Messages.{Message}
use local_coding_agent_harne.Context.Rounds.{
  Item, MessageGroup, groups_from, group_messages_by_api_round, select_from, removed_from,
  select_final_raw,
}
use local_coding_agent_harne.Context.Rounds.Regrouping.{
  flat, AreAdjacent, groups_from-flat, groups_from-AreAdjacent,
}
use local_coding_agent_harne.Context.Rounds.Retained.{
  total_tokens, IsWhole, IsStopped, items_of_removed, select_from-split, removed_from-split,
  flat-append, AreAdjacent-later, All-reverse, total-reverse,
}

-- The rounds of the conversation are those of `front` and the selected ones.
pub record IsSelected (measure : List Message → ℕ) (items : List Item) (budget : ℕ) : Type 0 where
  pub front : List MessageGroup
  pub rounds :
      group_messages_by_api_round measure items ≡ front ++ (select_final_raw measure items budget).0
  pub removed : items_of_removed (select_final_raw measure items budget).1 ≡ flat front
  pub whole : flat front ++ flat (select_final_raw measure items budget).0 ≡ items
  pub kept : All IsWhole (select_final_raw measure items budget).0
  pub fits : total_tokens (select_final_raw measure items budget).0 ≤ budget
  pub stopped :
      IsStopped budget (total_tokens (select_final_raw measure items budget).0) (reverse front)

-- What is kept of a conversation are its last rounds, as many as fit the budget: every one of them
-- is complete and has no checkpoint, and the round before them is incomplete, has a checkpoint
-- or does not fit. What is removed are the messages before them, in their order.
pub select_final_raw-IsSelected :
    (measure : List Message → ℕ) (items : List Item) (budget : ℕ) → IsSelected measure items budget
unfolding select_final_raw group_messages_by_api_round
select_final_raw-IsSelected measure items budget =
    let groups = groups_from measure (length items) 0 items in
    let picked = select_from budget 0 (reverse groups) in
    let (rest, split, kept, fits, stopped) =
      select_from-split budget 0 (reverse groups) (omega arith) in
    let rounds =
      sym (reverse-reverse groups) ∙ ap reverse (sym split) ∙ reverse-append picked rest in
    let whole =
      sym (flat-append (reverse rest) (reverse picked))
      ∙ ap flat (sym rounds)
      ∙ groups_from-flat measure (length items) 0 items (omega arith) in
    let adjacent =
      AreAdjacent-later 0 (reverse rest) (reverse picked)
        (subst (AreAdjacent 0) rounds (groups_from-AreAdjacent measure (length items) 0 items)) in
    record {
      front = reverse rest;
      rounds = rounds;
      removed =
          ap (λ xs. items_of_removed (removed_from (reverse picked) 0 xs)) (sym whole)
          ∙ removed_from-split (reverse picked) (0 + length (flat (reverse rest))) 0
              (flat (reverse rest)) (flat (reverse picked)) adjacent refl refl;
      whole = whole;
      kept = All-reverse picked kept;
      fits = omega (arith, fits, total-reverse picked);
      stopped =
          rw (total-reverse picked, reverse-reverse rest)
            (subst (λ u. IsStopped budget u rest) (omega arith) stopped);
    }
