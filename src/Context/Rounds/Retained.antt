-- ===== src/Context/Rounds/Retained.antt =====
-- What `_select_final_raw` keeps and removes (src/runtime/context/manager.py).
use mathlib.Core.List.{append_assoc, reverse-append}
use local_coding_agent_harne.Prelude.{
  ℕ, ◌+◌, ◌≤◌, ◌≡◌, refl, sym, ap, ◌∙◌, subst, true, false, ◌&&◌, List, [], ◌∷◌, ◌++◌, map, reverse,
  length, length-append, leb, ltb, All, arith, Bool-cases, inl, inr,
}
use local_coding_agent_harne.Context.Rounds.{
  Item, MessageGroup, has_checkpoint, is_stop, select_from, RemovedTrajectoryItem, is_retained,
  removed_from,
}
use local_coding_agent_harne.Context.Rounds.Regrouping.{flat, AreAdjacent}

abbrev pub total_tokens : List MessageGroup → ℕ
total_tokens [] = 0
total_tokens (group ∷ groups) = group.tokens + total_tokens groups

abbrev pub IsWhole : MessageGroup → Type 0
IsWhole group = (has_checkpoint group ≡ false) × (group.complete ≡ true)

-- The selection stops at the first of the remaining groups, the last one before the selection.
abbrev pub IsStopped : ℕ → ℕ → List MessageGroup → Type 0
IsStopped budget used [] = Unit
IsStopped budget used (group ∷ groups) = is_stop budget used group ≡ true

go-fits :
    (budget used : ℕ) (group : MessageGroup)
    → is_stop budget used group ≡ false
    → used + group.tokens ≤ budget
unfolding is_stop
go-fits budget used group h = ground arith

go-IsWhole :
    (budget used : ℕ) (group : MessageGroup) → is_stop budget used group ≡ false → IsWhole group
unfolding is_stop
go-IsWhole budget used group h = ground arith

pub select_from-split :
    (budget used : ℕ) (groups : List MessageGroup)
    → used ≤ budget
    → (rest : List MessageGroup) × (select_from budget used groups ++ rest ≡ groups)
      × All IsWhole (select_from budget used groups)
      × (used + total_tokens (select_from budget used groups) ≤ budget)
      × IsStopped budget (used + total_tokens (select_from budget used groups)) rest
unfolding select_from
select_from-split budget used [] h = ([], refl, tt, omega (arith, h), tt)
select_from-split budget used (group ∷ groups) h = elim (Bool-cases (is_stop budget used group)) [
  | inl stop ↦ rw stop (
    group ∷ groups,
    refl,
    tt,
    omega (arith, h),
    subst (λ u. is_stop budget u group ≡ true) (omega arith) stop,
  )
  | inr go ↦
      let (rest, whole, kept, fits, stopped) =
        select_from-split budget (used + group.tokens) groups (go-fits budget used group go) in
      let more = total_tokens (select_from budget (used + group.tokens) groups) in
      rw go (
        rest,
        ap (λ gs. group ∷ gs) whole,
        (go-IsWhole budget used group go, kept),
        omega (arith, fits),
        subst (λ u. IsStopped budget u rest) (omega arith) stopped,
      )
]

-- The groups cover the positions from the first start to the last end.
is_retained-between :
    (start index : ℕ) (groups : List MessageGroup)
    → AreAdjacent start groups
    → is_retained groups index ≡ (leb start index && ltb index (start + length (flat groups)))
is_retained-between start index [] h = ground arith
is_retained-between start index (g ∷ groups) (s, e, h) =
    ground
      (arith, s, e, is_retained-between g.end index groups h, length-append g.items (flat groups))

abbrev pub items_of_removed : List RemovedTrajectoryItem → List Item
items_of_removed removed = map (λ (r : RemovedTrajectoryItem). r.item) removed

retained-all :
    (selected : List MessageGroup) (first index : ℕ) (ys : List Item)
    → AreAdjacent first selected
    → first ≤ index
    → index + length ys ≡ first + length (flat selected)
    → removed_from selected index ys ≡ []
unfolding removed_from
retained-all selected first index [] a b l = refl
retained-all selected first index (y ∷ ys) a b l = ground (
  arith,
  is_retained-between first index selected a,
  retained-all selected first (index + 1) ys a,
)

-- The positions before `first` are removed, the others retained.
pub removed_from-split :
    (selected : List MessageGroup) (first index : ℕ) (xs ys : List Item)
    → AreAdjacent first selected
    → first ≡ index + length xs
    → length (flat selected) ≡ length ys
    → items_of_removed (removed_from selected index (xs ++ ys)) ≡ xs
unfolding removed_from
removed_from-split selected first index [] ys a s l =
    ap items_of_removed
      (retained-all selected first index ys a (omega (arith, s)) (omega (arith, s, l)))
removed_from-split selected first index (x ∷ xs) ys a s l = ground (
  arith,
  is_retained-between first index selected a,
  removed_from-split selected first (index + 1) xs ys a,
)

pub flat-append : (a b : List MessageGroup) → flat (a ++ b) ≡ flat a ++ flat b
flat-append [] b = refl
flat-append (g ∷ a) b =
    ap (λ xs. g.items ++ xs) (flat-append a b) ∙ sym (append_assoc g.items (flat a) (flat b))

pub AreAdjacent-later :
    (start : ℕ) (a b : List MessageGroup)
    → AreAdjacent start (a ++ b)
    → AreAdjacent (start + length (flat a)) b
AreAdjacent-later start [] b h = subst (λ n. AreAdjacent n b) (omega arith) h
AreAdjacent-later start (g ∷ a) b (s, e, h) =
    subst (λ n. AreAdjacent n b) (omega (arith, s, e, length-append g.items (flat a)))
      (AreAdjacent-later g.end a b h)

All-append : (a b : List MessageGroup) → All IsWhole a → All IsWhole b → All IsWhole (a ++ b)
All-append [] b h k = k
All-append (g ∷ a) b (h, hs) k = (h, All-append a b hs k)

pub All-reverse : (a : List MessageGroup) → All IsWhole a → All IsWhole (reverse a)
All-reverse [] h = tt
All-reverse (g ∷ a) (h, hs) =
    subst (All IsWhole) (sym (reverse-append (g ∷ []) a))
      (All-append (reverse a) (g ∷ []) (All-reverse a hs) (h, tt))

total-append : (a b : List MessageGroup) → total_tokens (a ++ b) ≡ total_tokens a + total_tokens b
total-append [] b = omega arith
total-append (g ∷ a) b = omega (arith, total-append a b)

pub total-reverse : (a : List MessageGroup) → total_tokens (reverse a) ≡ total_tokens a
total-reverse [] = refl
total-reverse (g ∷ a) =
    ap total_tokens (reverse-append (g ∷ []) a)
    ∙ total-append (reverse a) (g ∷ [])
    ∙ omega (arith, total-reverse a)
