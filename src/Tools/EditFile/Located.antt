-- ===== src/Tools/EditFile/Located.antt =====
-- The occurrence that an edit replaces (src/tools/edit_file.py).
use mathlib.Core.List.{append_assoc}
use local_coding_agent_harne.Prelude.{
  ℕ, zero, suc, ◌+◌, ◌-◌, ◌≤◌, ◌≡◌, ◌⊎◌, ◌≢◌, ◌&&◌, leb, refl, sym, ap, ◌∙◌, Bool, true, false, not,
  ◌==◌, Option, none, some, ◌++◌, length, take, drop, take-drop, drop-drop, is_nil, Text, ok, err,
  arith, Bool-cases, Option-cases, inl, inr,
}
use local_coding_agent_harne.Tools.EditFile.{
  Edit, EditError, count, find, locate, replace_at, replace_occurrence, replace_first, apply_edit,
}
use local_coding_agent_harne.Tools.EditFile.Search.{StandsAt, find-some, count-find}

find_at-StandsAt :
    (old text : Text) (start n : ℕ)
    → find old (drop start text) ≡ some n
    → StandsAt old text (start + n)
find_at-StandsAt old text start n h =
    let ends : (start + n) + length old ≡ start + (n + length old) = omega arith in
    ap (λ k. old ++ drop k text) ends
    ∙ ap (λ xs. old ++ xs) (sym (drop-drop (n + length old) start text))
    ∙ find-some old (drop start text) n h
    ∙ drop-drop n start text

-- With `rounds` matches before it and `more` behind it, the loop finds the match.
locate-StandsAt :
    (old text : Text) (rounds more start search_from : ℕ)
    → is_nil old ≡ false
    → count old (drop search_from text) ≡ suc rounds + more
    → (n : ℕ) × (locate old text (suc rounds) start search_from ≡ some n)
      × StandsAt old text n
      × (count old (drop n text) ≡ suc more)
unfolding locate
locate-StandsAt old text zero more start search_from e h =
    let (i, f, here, behind) = count-find old (drop search_from text) more e (omega (arith, h)) in
    (
      search_from + i,
      rw (f, locate) refl,
      find_at-StandsAt old text search_from i f,
      ap (count old) (sym (drop-drop i search_from text)) ∙ here,
    )
locate-StandsAt old text (suc rounds) more start search_from e h =
    let (i, f, here, behind) =
      count-find old (drop search_from text) (suc rounds + more) e (omega (arith, h)) in
    let next = search_from + i in
    let ends : search_from + (i + length old) ≡ next + length old = omega arith in
    let moved = drop-drop (i + length old) search_from text ∙ ap (λ k. drop k text) ends in
    let (n, l, at, place) =
      locate-StandsAt old text rounds more next (next + length old) e
        (ap (count old) (sym moved) ∙ behind) in
    (n, rw (f, locate) l, at, place)

-- The text that replaces `old`, of its matches the one of this number, by `new`.
pub record IsReplacement (text old new : Text) (number : ℕ) (result : Text) : Type 0 where
  pub before : Text
  pub after : Text
  pub was : text ≡ before ++ old ++ after
  pub is : result ≡ before ++ new ++ after
  pub place : number + count old (old ++ after) ≡ suc (count old text)

replace_at-IsReplacement :
    (text old new : Text) (number start : ℕ)
    → StandsAt old text start
    → number + count old (drop start text) ≡ suc (count old text)
    → IsReplacement text old new number (replace_at text old new start)
replace_at-IsReplacement text old new number start h p = record {
  before = take start text;
  after = drop (start + length old) text;
  was = sym (
      append_assoc (take start text) old (drop (start + length old) text)
      ∙ ap (λ xs. take start text ++ xs) h
      ∙ take-drop start text);
  is = refl;
  place = ap (λ t. number + count old t) h ∙ p;
}

replace_occurrence-IsReplacement :
    (text old new : Text) (occurrence : ℕ)
    → is_nil old ≡ false
    → 1 ≤ occurrence
    → occurrence ≤ count old text
    → IsReplacement text old new occurrence (replace_occurrence text old new occurrence)
unfolding replace_occurrence
replace_occurrence-IsReplacement text old new zero e p h = absurd (omega (arith, p))
replace_occurrence-IsReplacement text old new (suc rounds) e p h =
    let more = count old text - suc rounds in
    let (n, l, at, place) = locate-StandsAt old text rounds more 0 0 e (omega (arith, h)) in
    rw l (replace_at-IsReplacement text old new (suc rounds) n at (omega (arith, place, h)))

replace_first-IsReplacement :
    (text old new : Text)
    → is_nil old ≡ false
    → count old text ≡ 1
    → IsReplacement text old new 1 (replace_first text old new)
unfolding replace_first
replace_first-IsReplacement text old new e h =
    let (n, f, here, behind) = count-find old text 0 e h in
    rw f
      (replace_at-IsReplacement text old new 1 n (find-some old text n f) (omega (arith, here, h)))

-- The edit means an occurrence that is there: the one it counts to, or the only one.
abbrev pub is_meant : Option ℕ → ℕ → Bool
is_meant none n = n == 1
is_meant (some occurrence) n = not (n == 0) && leb occurrence n

abbrev pub number_of : Option ℕ → ℕ
number_of none = 1
number_of (some occurrence) = occurrence

-- Of an edit that does not replace all: if the occurrence that it means is in the text, the edit
-- puts the new text in the place of that occurrence and leaves all else as it was, and else it
-- fails.
pub apply_edit-IsReplacement :
    (text : Text) (edit : Edit) (index : ℕ)
    → is_nil edit.old_text ≡ false
    → edit.replace_all ≡ false
    → edit.occurrence ≢ some 0
    → ((is_meant edit.occurrence (count edit.old_text text) ≡ true)
        × (result : Text) × (apply_edit text edit index ≡ ok (result, count edit.old_text text))
        × IsReplacement text edit.old_text edit.new_text (number_of edit.occurrence) result)
      ⊎ ((is_meant edit.occurrence (count edit.old_text text) ≡ false)
          × (e : EditError) × (apply_edit text edit index ≡ err e))
unfolding apply_edit
apply_edit-IsReplacement text edit index f r z =
    let n = count edit.old_text text in
    elim (Option-cases edit.occurrence) [
      | inl o ↦ elim (Bool-cases (n == 1)) [
        | inl m ↦ inl (
          rw o m,
          replace_first text edit.old_text edit.new_text,
          ground arith,
          rw o (replace_first-IsReplacement text edit.old_text edit.new_text f (ground arith)),
        )
        | inr m ↦ elim (Bool-cases (n == 0)) [
          | inl a ↦ inr (rw o m, EditError.old_text_not_found index, ground arith)
          | inr a ↦ inr (rw o m, EditError.ambiguous_edit index, ground arith)
        ]
      ]
      | inr (k, o) ↦ elim (Bool-cases (n == 0)) [
        | inl a ↦ inr (rw o (ground arith), EditError.old_text_not_found index, ground arith)
        | inr a ↦ elim (Bool-cases (leb k n)) [
          | inl m ↦ inl (
            rw o (ground arith),
            replace_occurrence text edit.old_text edit.new_text k,
            ground arith,
            rw o (
                replace_occurrence-IsReplacement text edit.old_text edit.new_text k f (ground arith)
                  (ground arith)),
          )
          | inr m ↦ inr (rw o (ground arith), EditError.occurrence_not_found index, ground arith)
        ]
      ]
    ]
