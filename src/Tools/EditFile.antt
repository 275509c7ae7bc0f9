-- ===== src/Tools/EditFile.antt =====
-- src/tools/edit_file.py: EditFileTool.
pub mod Search
pub mod Located
pub mod Call
pub mod Guarded
use local_coding_agent_harne.Prelude.{
  ℕ, zero, suc, ◌+◌, ◌-◌, Bool, true, false, not, ◌&&◌, ◌||◌, Option, none, some, is_none, List, [],
  ◌∷◌, ◌++◌, length, take, drop, leb, ltb, ◌==◌, is_nil, is_prefix, Text, text_eq, contains,
  Outcome, ok, err, if◌then◌else◌,
}

-- The argument "occurrence": absent or None, a value that `int` refuses, or an integer by sign and size.
pub data RawOccurrence : Type 0 where
  absent not_integer : RawOccurrence
  integer : Bool → ℕ → RawOccurrence

-- One edit of the arguments; a text is `none` if its key is missing.
pub record RawEdit : Type 0 where
  pub old_text : Option Text
  pub new_text : Option Text
  pub occurrence : RawOccurrence
  pub replace_all : Bool

-- The argument "edits": missing, not a list, or a list, of which `none` is not an object.
pub data RawEdits : Type 0 where
  missing not_a_list : RawEdits
  listed : List (Option RawEdit) → RawEdits

pub record EditArgs : Type 0 where
  pub path : Text
  pub edits : RawEdits
  pub single : RawEdit

pub record Edit : Type 0 where
  pub old_text : Text
  pub new_text : Text
  pub occurrence : Option ℕ
  pub replace_all : Bool

-- A failure with the edit that it names.
pub data EditError : Type 0 where
  both_forms empty_edits neither_form file_not_found not_a_file file_not_read stale_file : EditError
  undecodable unencodable : EditError
  not_an_object texts_missing old_text_empty occurrence_with_replace_all : ℕ → EditError
  occurrence_not_integer occurrence_not_positive : ℕ → EditError
  old_text_not_found occurrence_not_found ambiguous_edit : ℕ → EditError

abbrev pub has_some : Option Text → Bool
has_some text = not (is_none text)

abbrev pub is_absent : RawOccurrence → Bool
is_absent RawOccurrence.absent = true
is_absent _ = false

abbrev pub with_occurrence : ℕ → Text → Text → Bool → RawOccurrence → Outcome EditError Edit
with_occurrence index old new replace_all RawOccurrence.absent =
    ok record { old_text = old; new_text = new; occurrence = none; replace_all = replace_all }
with_occurrence index old new replace_all RawOccurrence.not_integer =
    err (EditError.occurrence_not_integer index)
with_occurrence index old new replace_all (RawOccurrence.integer negative n) =
    if negative || n == 0
    then err (EditError.occurrence_not_positive index)
    else ok
        record { old_text = old; new_text = new; occurrence = some n; replace_all = replace_all }

-- `_normalize_edit`
abbrev pub normalize_texts : ℕ → RawEdit → Option Text → Option Text → Outcome EditError Edit
normalize_texts index edit (some old) (some new) =
    if is_nil old
    then err (EditError.old_text_empty index)
    else if not (is_absent edit.occurrence) && edit.replace_all
    then err (EditError.occurrence_with_replace_all index)
    else with_occurrence index old new edit.replace_all edit.occurrence
normalize_texts index edit _ _ = err (EditError.texts_missing index)

unfoldable pub normalize_edit : ℕ → RawEdit → Outcome EditError Edit
normalize_edit index edit = normalize_texts index edit edit.old_text edit.new_text

abbrev pub prepend :
    Outcome EditError Edit → Outcome EditError (List Edit) → Outcome EditError (List Edit)
prepend (ok edit) (ok edits) = ok (edit ∷ edits)
prepend (ok edit) (err e) = err e
prepend (err e) edits = err e

unfoldable pub normalize_edits : ℕ → List (Option RawEdit) → Outcome EditError (List Edit)
normalize_edits index [] = ok []
normalize_edits index (none ∷ edits) = err (EditError.not_an_object index)
normalize_edits index (some edit ∷ edits) =
    prepend (normalize_edit index edit) (normalize_edits (index + 1) edits)

abbrev pub is_missing : RawEdits → Bool
is_missing RawEdits.missing = true
is_missing _ = false

abbrev pub edits_of : RawEdits → RawEdit → Outcome EditError (List Edit)
edits_of RawEdits.missing single =
    if has_some single.old_text && has_some single.new_text
    then prepend (normalize_edit 1 single) (ok [])
    else err EditError.neither_form
edits_of RawEdits.not_a_list single = err EditError.empty_edits
edits_of (RawEdits.listed []) single = err EditError.empty_edits
edits_of (RawEdits.listed (edit ∷ edits)) single = normalize_edits 1 (edit ∷ edits)

-- `_edits_from_args`
unfoldable pub edits_from_args : EditArgs → Outcome EditError (List Edit)
edits_from_args args =
    let single = args.single in
    if not (is_missing args.edits) && (has_some single.old_text || has_some single.new_text)
    then err EditError.both_forms
    else edits_of args.edits single

-- `text.count(old)`, whose matches do not overlap: `skip` characters belong to the last match.
unfoldable pub count_from : Text → ℕ → Text → ℕ
count_from old skip [] = 0
count_from old zero (c ∷ text) =
    let matched = suc (count_from old (length old - 1) text) in
    let other = count_from old 0 text in if is_prefix old (c ∷ text) then matched else other
count_from old (suc skip) (c ∷ text) = count_from old skip text

abbrev pub count : Text → Text → ℕ
count old text = count_from old 0 text

-- `text.replace(old, new)`
unfoldable pub replace_from : Text → Text → ℕ → Text → Text
replace_from old new skip [] = []
replace_from old new zero (c ∷ text) =
    let matched = new ++ replace_from old new (length old - 1) text in
    let other = c ∷ replace_from old new 0 text in
    if is_prefix old (c ∷ text) then matched else other
replace_from old new (suc skip) (c ∷ text) = replace_from old new skip text

abbrev pub next_index : Option ℕ → Option ℕ
next_index none = none
next_index (some n) = some (suc n)

-- `text.find(old)`, `none` for -1
unfoldable pub find : Text → Text → Option ℕ
find old [] = if is_nil old then some 0 else none
find old (c ∷ text) =
    let later = next_index (find old text) in if is_prefix old (c ∷ text) then some 0 else later

abbrev pub shifted : ℕ → Option ℕ → Option ℕ
shifted n none = none
shifted n (some i) = some (n + i)

-- `text.find(old, search_from)`
abbrev pub find_at : Text → Text → ℕ → Option ℕ
find_at old text search_from = shifted search_from (find old (drop search_from text))

-- The loop of `_replace_occurrence`; `none` if an occurrence is not there, which the caller excludes.
unfoldable pub locate : Text → Text → ℕ → ℕ → ℕ → Option ℕ
locate old text zero start search_from = some start
locate old text (suc rounds) start search_from = elim (find_at old text search_from) [
  | none ↦ none
  | some next ↦ locate old text rounds next (next + length old)
]

abbrev pub replace_at : Text → Text → Text → ℕ → Text
replace_at text old new start = take start text ++ new ++ drop (start + length old) text

abbrev pub replaced : Text → Text → Text → Option ℕ → Text
replaced text old new none = text
replaced text old new (some start) = replace_at text old new start

unfoldable pub replace_occurrence : Text → Text → Text → ℕ → Text
replace_occurrence text old new occurrence = replaced text old new (locate old text occurrence 0 0)

-- `text.replace(old, new, 1)`
unfoldable pub replace_first : Text → Text → Text → Text
replace_first text old new = replaced text old new (find old text)

abbrev pub apply_occurrence : Text → Edit → ℕ → ℕ → Option ℕ → Outcome EditError (Text × ℕ)
apply_occurrence text edit index n (some occurrence) =
    if ltb n occurrence
    then err (EditError.occurrence_not_found index)
    else ok (replace_occurrence text edit.old_text edit.new_text occurrence, n)
apply_occurrence text edit index n none =
    if ltb 1 n
    then err (EditError.ambiguous_edit index)
    else ok (replace_first text edit.old_text edit.new_text, n)

-- `_apply_edit`
unfoldable pub apply_edit : Text → Edit → ℕ → Outcome EditError (Text × ℕ)
apply_edit text edit index =
    let n = count edit.old_text text in
    if n == 0
    then err (EditError.old_text_not_found index)
    else if edit.replace_all
    then ok (replace_from edit.old_text edit.new_text 0 text, n)
    else apply_occurrence text edit index n edit.occurrence
