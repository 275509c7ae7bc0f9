-- ===== src/Context/Rounds/Regrouping.antt =====
-- The rounds of a conversation and its messages, and the rounds of the later messages alone
-- (src/runtime/context/manager.py).
use mathlib.Core.List.{nil≢cons, tail-eq_of_cons-eq}
use local_coding_agent_harne.Prelude.{
  ℕ, zero, suc, ◌+◌, ◌≤◌, ◌≡◌, refl, sym, ap, ◌∙◌, Bool, none, List, [], ◌∷◌, ◌++◌, map, length,
  length-append, Text, arith,
}
use local_coding_agent_harne.Plan.Validation.{distinct}
use local_coding_agent_harne.Context.Messages.{Message, tool_use_ids, tool_result_ids}
use local_coding_agent_harne.Context.Rounds.{
  Item, MessageGroup, Round, see_results, take_results, round_of, groups_from,
}

-- The items of the groups, in order.
abbrev pub flat : List MessageGroup → List Item
flat [] = []
flat (group ∷ groups) = group.items ++ flat groups

-- Each group begins where the one before it ends.
abbrev pub AreAdjacent : ℕ → List MessageGroup → Type 0
AreAdjacent start [] = Unit
AreAdjacent start (group ∷ groups) =
    (group.start ≡ start) × (group.end ≡ start + length group.items) × AreAdjacent group.end groups

take_results-whole :
    (expected seen : List Text) (complete : Bool) (items : List Item)
    → let round = take_results expected seen complete items in round.taken ++ round.rest ≡ items
unfolding take_results
take_results-whole expected seen complete [] = refl
take_results-whole expected seen complete (item ∷ items) =
    let (now_seen, now_complete) =
      see_results expected seen complete (tool_result_ids item.message) in
    ground (arith, take_results-whole expected now_seen now_complete items)

pub round_of-whole :
    (item : Item) (items : List Item)
    → (round_of item items).taken ++ (round_of item items).rest ≡ items
unfolding round_of
round_of-whole item items =
    let expected = tool_use_ids item.message in
    ground (arith, take_results-whole expected [] (distinct expected) items)

pub round_of-rest :
    (item : Item) (items : List Item) → length (round_of item items).rest ≤ length items
round_of-rest item items =
    let round = round_of item items in
    omega (
      arith,
      length-append round.taken round.rest,
      ap (λ (xs : List Item). length xs) (round_of-whole item items),
    )

module _ (measure : List Message → ℕ) where
  -- With enough fuel no item is lost.
  pub groups_from-flat :
      (fuel start : ℕ) (items : List Item)
      → length items ≤ fuel
      → flat (groups_from measure fuel start items) ≡ items
  unfolding groups_from
  groups_from-flat zero start [] h = refl
  groups_from-flat zero start (item ∷ items) h = absurd (omega (arith, h))
  groups_from-flat (suc fuel) start [] h = refl
  groups_from-flat (suc fuel) start (item ∷ items) h =
      let round = round_of item items in
      ap (λ xs. item ∷ (round.taken ++ xs))
        (groups_from-flat fuel (start + length (item ∷ round.taken)) round.rest
          (omega (arith, h, round_of-rest item items)))
      ∙ ap (λ xs. item ∷ xs) (round_of-whole item items)

  pub groups_from-AreAdjacent :
      (fuel start : ℕ) (items : List Item)
      → AreAdjacent start (groups_from measure fuel start items)
  unfolding groups_from
  groups_from-AreAdjacent zero start items = tt
  groups_from-AreAdjacent (suc fuel) start [] = tt
  groups_from-AreAdjacent (suc fuel) start (item ∷ items) =
      let round = round_of item items in
      (refl, refl, groups_from-AreAdjacent fuel (start + length (item ∷ round.taken)) round.rest)

abbrev pub relabel : Item → Item
relabel item = record { message = item.message; ordinal = none }

relabel_round : Round → Round
relabel_round round = record {
  taken = map relabel round.taken;
  seen = round.seen;
  complete = round.complete;
  rest = map relabel round.rest;
}

take_results-relabel :
    (expected seen : List Text) (complete : Bool) (items : List Item)
    → take_results expected seen complete (map relabel items)
      ≡ relabel_round (take_results expected seen complete items)
unfolding take_results relabel_round
take_results-relabel expected seen complete [] = refl
take_results-relabel expected seen complete (item ∷ items) =
    let (now_seen, now_complete) =
      see_results expected seen complete (tool_result_ids item.message) in
    ground (arith, take_results-relabel expected now_seen now_complete items)

round_of-relabel :
    (item : Item) (items : List Item)
    → round_of (relabel item) (map relabel items) ≡ relabel_round (round_of item items)
unfolding round_of relabel_round
round_of-relabel item items =
    let expected = tool_use_ids item.message in
    ground (arith, take_results-relabel expected [] (distinct expected) items)

abbrev pub flags : List MessageGroup → List Bool
flags groups = map (λ (g : MessageGroup). g.complete) groups

module _ (measure : List Message → ℕ) where
  -- Neither the start, the fuel nor the ordinals matter to what is complete.
  pub flags-relabel :
      (fuel fuel' start start' : ℕ) (items : List Item)
      → length items ≤ fuel
      → length items ≤ fuel'
      → flags (groups_from measure fuel' start' (map relabel items))
        ≡ flags (groups_from measure fuel start items)
  unfolding groups_from relabel_round
  flags-relabel zero zero start start' [] h k = refl
  flags-relabel zero (suc fuel') start start' [] h k = refl
  flags-relabel (suc fuel) zero start start' [] h k = refl
  flags-relabel (suc fuel) (suc fuel') start start' [] h k = refl
  flags-relabel zero fuel' start start' (item ∷ items) h k = absurd (omega (arith, h))
  flags-relabel (suc fuel) zero start start' (item ∷ items) h k = absurd (omega (arith, k))
  flags-relabel (suc fuel) (suc fuel') start start' (item ∷ items) h k =
      let round = round_of item items in
      rw (round_of-relabel item items) (
        ap (λ flags. round.complete ∷ flags)
          (flags-relabel fuel fuel' (start + suc (length round.taken))
            (start' + suc (length (map relabel round.taken))) round.rest
            (omega (arith, h, round_of-rest item items))
            (omega (arith, k, round_of-rest item items))))

  -- The last groups are complete exactly if the groups of their own items are.
  pub flags-suffix :
      (fuel start : ℕ) (items : List Item) (front selected : List MessageGroup)
      → length items ≤ fuel
      → groups_from measure fuel start items ≡ front ++ selected
      → flags (groups_from measure (length (flat selected)) 0 (map relabel (flat selected)))
        ≡ flags selected
  unfolding groups_from
  flags-suffix fuel start items [] selected h e =
      let same = sym (groups_from-flat measure fuel start items h) ∙ ap flat e in
      rw⁻¹ same (flags-relabel fuel (length items) start 0 items h (omega arith) ∙ ap flags e)
  flags-suffix zero start items (g ∷ front) selected h e = absurd (nil≢cons e)
  flags-suffix (suc fuel) start [] (g ∷ front) selected h e = absurd (nil≢cons e)
  flags-suffix (suc fuel) start (item ∷ items) (g ∷ front) selected h e =
      let round = round_of item items in
      flags-suffix fuel (start + suc (length round.taken)) round.rest front selected
        (omega (arith, h, round_of-rest item items)) (tail-eq_of_cons-eq e)
