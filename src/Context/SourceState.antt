-- ===== src/Context/SourceState.antt =====
-- src/runtime/context/source_state.py: which lines of a file have been read. Line numbers are
-- natural numbers, which `read_file` and `source_resident_overlap` pass.
pub mod Merging
pub mod Counting
use local_coding_agent_harne.Prelude.{
  ℕ, ◌+◌, ◌-◌, min, max, Bool, true, false, not, ◌&&◌, ◌||◌, Option, none, some, List, [], ◌∷◌,
  ◌++◌, Text, ltb, leb, ◌==◌, if◌then◌else◌,
}

-- Half-open: the lines `start`, …, `end - 1`.
abbrev pub Range : Type 0
Range = ℕ × ℕ

-- `sorted` of pairs, by insertion: the order of tuples.
abbrev pub range_le : Range → Range → Bool
range_le (a, b) (c, d) = ltb a c || (a == c && leb b d)

unfoldable pub insert_range : Range → List Range → List Range
insert_range r [] = r ∷ []
insert_range r (q ∷ qs) = if range_le r q then r ∷ q ∷ qs else q ∷ insert_range r qs

-- `sorted((start, end) for start, end in values if end > start)`
unfoldable pub normalize : List Range → List Range
normalize [] = []
normalize (r ∷ rs) = let rest = normalize rs in if ltb r.0 r.1 then insert_range r rest else rest

-- The loop of `merge_ranges`; `last` is `merged[-1]`, which only the next round changes.
unfoldable pub merge_into : Range → List Range → List Range
merge_into last [] = last ∷ []
merge_into last (r ∷ rs) =
    let apart = merge_into r rs in
    let joined = merge_into (last.0, max last.1 r.1) rs in
    if ltb last.1 r.0 then last ∷ apart else joined

abbrev pub merge_sorted : List Range → List Range
merge_sorted [] = []
merge_sorted (r ∷ rs) = merge_into r rs

abbrev pub with_incoming : List Range → Option Range → List Range
with_incoming ranges none = ranges
with_incoming ranges (some r) = ranges ++ r ∷ []

unfoldable pub merge_ranges : List Range → Option Range → List Range
merge_ranges ranges incoming = merge_sorted (normalize (with_incoming ranges incoming))

-- The part of `start`, …, `end - 1` that lies in one range, and in all of them.
abbrev pub shared : ℕ → ℕ → Range → ℕ
shared start end (covered_start, covered_end) = min end covered_end - max start covered_start

unfoldable pub total_shared : ℕ → ℕ → List Range → ℕ
total_shared start end [] = 0
total_shared start end (r ∷ rs) = shared start end r + total_shared start end rs

unfoldable pub overlap_length : List Range → ℕ → ℕ → ℕ
overlap_length ranges start end = if leb end start then 0 else total_shared start end ranges

pub record SourceReadState : Type 0 where
  pub source_path : Text
  pub sha256 : Text
  pub total_lines : ℕ
  pub covered_ranges : List Range
  pub fully_scanned : Bool
  pub last_read_turn : Option ℕ
  pub observation_ids : List Text
  pub projected_observation_ids : List Text

unfoldable pub ranges_cover_all : ℕ → List Range → Bool
ranges_cover_all total_lines [] = total_lines == 0
ranges_cover_all total_lines (r ∷ rs) = total_lines == 0 || (r.0 == 0 && leb total_lines r.1)

pub record ReadReport : Type 0 where
  pub already_seen : ℕ
  pub new_lines : ℕ
  pub completed_now : Bool

unfoldable pub record_range : SourceReadState → ℕ → ℕ → Option ℕ → ReadReport × SourceReadState
record_range state start end turn_id =
    let already_seen = overlap_length state.covered_ranges start end in
    let covered = merge_ranges state.covered_ranges (some (start, end)) in
    let scanned = ranges_cover_all state.total_lines covered in
    (
      record {
        already_seen = already_seen;
        new_lines = (end - start) - already_seen;
        completed_now = scanned && not state.fully_scanned;
      },
      record state { covered_ranges = covered; fully_scanned = scanned; last_read_turn = turn_id },
    )
