-- ===== src/Context/SourceState/Counting.antt =====
-- `record_range` in terms of single lines (src/runtime/context/source_state.py).
use local_coding_agent_harne.Prelude.{
  ℕ, zero, suc, ◌+◌, ◌-◌, ◌≤◌, ◌<◌, ◌≡◌, ◌∙◌, ◌↔◌, refl, Bool, true, false, not, ◌&&◌, ◌||◌, Option,
  some, List, [], ◌∷◌, leb, if◌then◌else◌, arith, Bool-cases, inl, inr,
}
use local_coding_agent_harne.Context.SourceState.{
  Range, shared, total_shared, overlap_length, SourceReadState, ranges_cover_all, ReadReport,
  record_range,
}
use local_coding_agent_harne.Context.SourceState.Merging.{
  holds, covers, IsApart, IsMerged, merge_ranges_lem, covers-with_incoming,
}

-- How many of the `n` lines from `start` on pass the test.
pub count_lines : (ℕ → Bool) → ℕ → ℕ → ℕ
count_lines test start zero = 0
count_lines test start (suc n) = (if test start then 1 else 0) + count_lines test (start + 1) n

count-holds :
    (r : Range) (start n : ℕ)
    → r.0 < r.1
    → count_lines (λ x. holds x r) start n ≡ shared start (start + n) r
unfolding count_lines
count-holds r start zero h = ground arith
count-holds r start (suc n) h = ground (arith, count-holds r (start + 1) n h)

count-or :
    (f g : ℕ → Bool)
    → ((x : ℕ) → f x ≡ true → g x ≡ false)
    → (start n : ℕ)
    → count_lines (λ x. f x || g x) start n ≡ count_lines f start n + count_lines g start n
unfolding count_lines
count-or f g apart start zero = refl
count-or f g apart start (suc n) = ground (arith, apart start, count-or f g apart (start + 1) n)

count-none : (start n : ℕ) → count_lines (λ x. false) start n ≡ 0
unfolding count_lines
count-none start zero = refl
count-none start (suc n) = ground (arith, count-none (start + 1) n)

covers-above : (from x : ℕ) (rs : List Range) → IsApart from rs → covers rs x ≡ true → from < x
covers-above from x [] a h = cc
covers-above from x (r ∷ rs) a h = ground (arith, covers-above r.1 x rs)

IsApart-IsMerged : (from : ℕ) (rs : List Range) → IsApart from rs → IsMerged rs
IsApart-IsMerged from [] a = tt
IsApart-IsMerged from (r ∷ rs) a = ground arith

count-covers :
    (rs : List Range) (start n : ℕ)
    → IsMerged rs
    → count_lines (covers rs) start n ≡ total_shared start (start + n) rs
unfolding total_shared
count-covers [] start n m = count-none start n
count-covers (r ∷ rs) start n m = ground (
  arith,
  count-or (λ x. holds x r) (covers rs)
      (λ x h. elim (Bool-cases (covers rs x)) [
        | inr out ↦ out
        | inl also ↦ absurd (ground (arith, covers-above r.1 x rs m.1 also))
      ])
      start n,
  count-holds r start n m.0,
  count-covers rs start n (IsApart-IsMerged r.1 rs m.1),
)

-- On merged ranges `overlap_length` counts the covered lines from `start` to `end - 1`.
pub overlap_length_lem :
    (ranges : List Range) (start end : ℕ)
    → IsMerged ranges
    → overlap_length ranges start end ≡ count_lines (covers ranges) start (end - start)
unfolding overlap_length
overlap_length_lem ranges start end m = elim (Bool-cases (leb end start)) [
  | inl empty ↦ let e : end - start ≡ 0 = ground arith in rw (empty, e) (unfold count_lines in refl)
  | inr some' ↦
      let e : start + (end - start) ≡ end = ground arith in
      rw some' (rw (count-covers ranges start (end - start) m, e) refl)
]

-- Merged ranges cover every line exactly if `ranges_cover_all` says so.
pub ranges_cover_all_iff :
    (total : ℕ) (ranges : List Range)
    → IsMerged ranges
    → (ranges_cover_all total ranges ≡ true) ↔ ((x : ℕ) → x < total → covers ranges x ≡ true)
unfolding ranges_cover_all
ranges_cover_all_iff total [] m = (λ h x l. ground arith, λ h. ground (arith, h 0))
ranges_cover_all_iff total (r ∷ rs) m = (
  λ h x l. ground arith,
  λ h. ground (arith, h 0, h r.1, covers-above r.1 0 rs m.1, covers-above r.1 r.1 rs m.1),
)

count-le : (test : ℕ → Bool) (start n : ℕ) → count_lines test start n ≤ n
unfolding count_lines
count-le test start zero = omega arith
count-le test start (suc n) = ground (arith, count-le test (start + 1) n)

-- What one call of `record_range` reports and keeps, line by line.
pub record IsExactRead (state : SourceReadState) (start end : ℕ) (report : ReadReport)
    (after : SourceReadState) : Type 0 where
  pub merged : IsMerged after.covered_ranges
  pub seen : report.already_seen ≡ count_lines (covers state.covered_ranges) start (end - start)
  pub new : report.already_seen + report.new_lines ≡ end - start
  pub covered :
      (x : ℕ)
      → covers after.covered_ranges x ≡ (covers state.covered_ranges x || holds x (start, end))
  pub scanned :
      (after.fully_scanned ≡ true)
      ↔ ((x : ℕ) → x < after.total_lines → covers after.covered_ranges x ≡ true)
  pub completed : report.completed_now ≡ (after.fully_scanned && not state.fully_scanned)

-- From merged ranges, the lines reported as seen are those that were covered, the others of the
-- range are new, the range becomes covered and nothing else does, and the file counts as fully
-- scanned exactly if every line of it is covered.
pub record_range-IsExactRead :
    (state : SourceReadState) (start end : ℕ) (turn_id : Option ℕ)
    → IsMerged state.covered_ranges
    → IsExactRead state start end
        (record_range state start end turn_id).0
        (record_range state start end turn_id).1
unfolding record_range
record_range-IsExactRead state start end turn_id m =
    let (merged, same) = merge_ranges_lem state.covered_ranges (some (start, end)) in
    let seen = overlap_length_lem state.covered_ranges start end m in
    let bound = count-le (covers state.covered_ranges) start (end - start) in
    record {
      merged = merged;
      seen = seen;
      new = omega arith;
      covered = λ x. same x ∙ covers-with_incoming x state.covered_ranges (start, end);
      scanned = ranges_cover_all_iff state.total_lines _ merged;
      completed = refl;
    }
