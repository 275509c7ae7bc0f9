-- ===== src/Context/SourceState/Merging.antt =====
-- The lines that merged ranges cover (src/runtime/context/source_state.py).
use local_coding_agent_harne.Prelude.{
  ℕ, ◌≤◌, ◌<◌, max, ◌≡◌, ◌∙◌, refl, Bool, ◌&&◌, ◌||◌, Option, some, List, [], ◌∷◌, ◌++◌, any_of,
  ltb, leb, arith,
}
use local_coding_agent_harne.Context.SourceState.{
  Range, insert_range, normalize, merge_into, merge_sorted, with_incoming, merge_ranges,
}

abbrev pub holds : ℕ → Range → Bool
holds x (start, end) = leb start x && ltb x end

-- Whether a line lies in one of the ranges.
abbrev pub covers : List Range → ℕ → Bool
covers ranges x = any_of (holds x) ranges

-- Nonempty ranges, each starting behind the end of the one before.
abbrev pub IsApart : ℕ → List Range → Type 0
IsApart from [] = Unit {0}
IsApart from ((start, end) ∷ rs) = (from < start) × (start < end) × IsApart end rs

abbrev pub IsMerged : List Range → Type 0
IsMerged [] = Unit {0}
IsMerged ((start, end) ∷ rs) = (start < end) × IsApart end rs

-- Nonempty ranges in the order of their starts, none of them before `from`.
abbrev Ascending : ℕ → List Range → Type 0
Ascending from [] = Unit {0}
Ascending from ((start, end) ∷ rs) = (from ≤ start) × (start < end) × Ascending start rs

covers-append : (x : ℕ) (rs qs : List Range) → covers (rs ++ qs) x ≡ (covers rs x || covers qs x)
covers-append x [] qs = refl
covers-append x (r ∷ rs) qs = ground (arith, covers-append x rs qs)

covers-insert :
    (x : ℕ) (r : Range) (rs : List Range)
    → covers (insert_range r rs) x ≡ (holds x r || covers rs x)
unfolding insert_range
covers-insert x r [] = refl
covers-insert x r (q ∷ qs) = ground (arith, covers-insert x r qs)

covers-normalize : (x : ℕ) (rs : List Range) → covers (normalize rs) x ≡ covers rs x
unfolding normalize
covers-normalize x [] = refl
covers-normalize x (r ∷ rs) =
    ground (arith, covers-insert x r (normalize rs), covers-normalize x rs)

insert-Ascending :
    (from : ℕ) (r : Range) (rs : List Range)
    → from ≤ r.0
    → r.0 < r.1
    → Ascending from rs
    → Ascending from (insert_range r rs)
unfolding insert_range
insert-Ascending from r [] l n a = (l, n, tt)
insert-Ascending from r (q ∷ qs) l n a = ground (arith, insert-Ascending q.0 r qs)

normalize-Ascending : (rs : List Range) → Ascending 0 (normalize rs)
unfolding normalize
normalize-Ascending [] = tt
normalize-Ascending (r ∷ rs) =
    ground (arith, insert-Ascending 0 r (normalize rs), normalize-Ascending rs)

Ascending-weaken : (a b : ℕ) (rs : List Range) → a ≤ b → Ascending b rs → Ascending a rs
Ascending-weaken a b [] l h = tt
Ascending-weaken a b (r ∷ rs) l h = ground arith

merge_into-covers :
    (x : ℕ) (last : Range) (rs : List Range)
    → last.0 < last.1
    → Ascending last.0 rs
    → covers (merge_into last rs) x ≡ (holds x last || covers rs x)
unfolding merge_into
merge_into-covers x last [] n a = refl
merge_into-covers x last (r ∷ rs) n a = ground (
  arith,
  merge_into-covers x r rs,
  merge_into-covers x (last.0, max last.1 r.1) rs,
  Ascending-weaken last.0 r.0 rs,
)

merge_into-IsApart :
    (from : ℕ) (last : Range) (rs : List Range)
    → from < last.0
    → last.0 < last.1
    → Ascending last.0 rs
    → IsApart from (merge_into last rs)
unfolding merge_into
merge_into-IsApart from last [] f n a = (f, n, tt)
merge_into-IsApart from last (r ∷ rs) f n a = ground (
  arith,
  merge_into-IsApart last.1 r rs,
  merge_into-IsApart from (last.0, max last.1 r.1) rs,
  Ascending-weaken last.0 r.0 rs,
)

merge_into-IsMerged :
    (last : Range) (rs : List Range)
    → last.0 < last.1
    → Ascending last.0 rs
    → IsMerged (merge_into last rs)
unfolding merge_into
merge_into-IsMerged last [] n a = (n, tt)
merge_into-IsMerged last (r ∷ rs) n a = ground (
  arith,
  merge_into-IsApart last.1 r rs,
  merge_into-IsMerged (last.0, max last.1 r.1) rs,
  Ascending-weaken last.0 r.0 rs,
)

merge_sorted-covers :
    (x : ℕ) (rs : List Range) → Ascending 0 rs → covers (merge_sorted rs) x ≡ covers rs x
merge_sorted-covers x [] a = refl
merge_sorted-covers x (r ∷ rs) a = merge_into-covers x r rs a.1 a.2

merge_sorted-IsMerged : (rs : List Range) → Ascending 0 rs → IsMerged (merge_sorted rs)
merge_sorted-IsMerged [] a = tt
merge_sorted-IsMerged (r ∷ rs) a = merge_into-IsMerged r rs a.1 a.2

-- Merging gives nonempty ranges in ascending order with a gap between any two, and they cover
-- exactly the lines of the given ranges and of the incoming one.
pub merge_ranges_lem :
    (ranges : List Range) (incoming : Option Range)
    → IsMerged (merge_ranges ranges incoming)
      × ((x : ℕ)
          → covers (merge_ranges ranges incoming) x ≡ covers (with_incoming ranges incoming) x)
unfolding merge_ranges
merge_ranges_lem ranges incoming =
    let values = with_incoming ranges incoming in
    let sorted = normalize-Ascending values in
    (
      merge_sorted-IsMerged (normalize values) sorted,
      λ x. merge_sorted-covers x (normalize values) sorted ∙ covers-normalize x values,
    )

pub covers-with_incoming :
    (x : ℕ) (ranges : List Range) (r : Range)
    → covers (with_incoming ranges (some r)) x ≡ (covers ranges x || holds x r)
covers-with_incoming x ranges r = ground (arith, covers-append x ranges (r ∷ []))
