-- ===== src/Tools/EditFile/Call.antt =====
-- src/tools/edit_file.py: EditFileTool.call, and the file that it edits.
use local_coding_agent_harne.Prelude.{
  ℕ, ◌+◌, Bool, true, false, not, ◌==◌, ◌&&◌, ◌++◌, Option, none, some, List, [], ◌∷◌, Text,
  text_eq, contains, Outcome, ok, err, if◌then◌else◌,
}
use local_coding_agent_harne.Tools.EditFile.{Edit, EditArgs, EditError, edits_from_args, apply_edit}

-- The codec "utf-8", which may raise on bytes and on a text with a lone surrogate, and the line
-- separator of the platform.
pub record TextFiles : Type 0 where
  pub decode : List ℕ → Option Text
  pub encode : Text → Option (List ℕ)
  pub linesep : Text

-- The target: the file at it with its bytes, the modification time of the last snapshot of it, and
-- the files that the task has changed.
pub record Target : Type 0 where
  pub exists : Bool
  pub is_file : Bool
  pub content : List ℕ
  pub mtime : ℕ
  pub snapshot_mtime : Option ℕ
  pub changed_files : List Text

-- Of the metadata, the counts of the edits in order, and "changed".
pub record EditReport : Type 0 where
  pub occurrences : List ℕ
  pub changed : Bool

abbrev pub push : ℕ → Outcome EditError (Text × List ℕ) → Outcome EditError (Text × List ℕ)
push n (ok (text, counts)) = ok (text, n ∷ counts)
push n (err e) = err e

-- The loop over the edits.
unfoldable pub apply_edits : Text → ℕ → List Edit → Outcome EditError (Text × List ℕ)
apply_edits text index [] = ok (text, [])
apply_edits text index (edit ∷ edits) = elim (apply_edit text edit index) [
  | err e ↦ err e
  | ok (updated, n) ↦ push n (apply_edits updated (index + 1) edits)
]

abbrev pub is_current : Option ℕ → ℕ → Bool
is_current none mtime = false
is_current (some snapshot) mtime = snapshot == mtime

abbrev pub add_file : Text → List Text → List Text
add_file path files = if contains path files then files else path ∷ files

-- The universal newlines of a text that is read: "\r\n" and "\r" are "\n". `after_return` says that
-- the last character was "\r".
unfoldable pub newlines_from : Bool → Text → Text
newlines_from after_return [] = []
newlines_from after_return (c ∷ text) =
    let returned = 10 ∷ newlines_from true text in
    let on = newlines_from false text in
    if c == 13 then returned else if after_return && c == 10 then on else c ∷ on

-- The line ends of a text that is written: "\n" is the separator.
unfoldable pub with_linesep : Text → Text → Text
with_linesep linesep [] = []
with_linesep linesep (c ∷ text) =
    let rest = with_linesep linesep text in if c == 10 then linesep ++ rest else c ∷ rest

abbrev pub translated : Option Text → Option Text
translated none = none
translated (some text) = some (newlines_from false text)

-- The write, the snapshot of the written file and the record of the changed file; `now` is the
-- modification time that the write gives the file.
abbrev pub write : Text → ℕ → List ℕ → Target → Target
write relative now bytes target = record {
  exists = target.exists;
  is_file = target.is_file;
  content = bytes;
  mtime = now;
  snapshot_mtime = some now;
  changed_files = add_file relative target.changed_files;
}

-- `write_text` opens the file for writing, which empties it, before the text is encoded.
abbrev pub emptied : ℕ → Target → Target
emptied now target = record target { content = []; mtime = now }

module _ (files : TextFiles) where
  -- `target.read_text(encoding="utf-8")`
  abbrev pub read_text : Target → Option Text
  read_text target = translated (files.decode target.content)

  abbrev pub encoded : Text → Option (List ℕ)
  encoded text = files.encode (with_linesep files.linesep text)

  abbrev pub write_edited :
      Text → ℕ → Target → List ℕ → Option (List ℕ) → Outcome EditError EditReport × Target
  write_edited relative now target counts none = (err EditError.unencodable, emptied now target)
  write_edited relative now target counts (some bytes) =
      (ok record { occurrences = counts; changed = true }, write relative now bytes target)

  abbrev pub finish_edit :
      Text
      → ℕ
      → Target
      → Text
      → Outcome EditError (Text × List ℕ)
      → Outcome EditError EditReport × Target
  finish_edit relative now target original (err e) = (err e, target)
  finish_edit relative now target original (ok (updated, counts)) =
      if text_eq updated original
      then (ok record { occurrences = counts; changed = false }, target)
      else write_edited relative now target counts (encoded updated)

  abbrev pub run_edits :
      Text
      → ℕ
      → Target
      → Text
      → Outcome EditError (List Edit)
      → Outcome EditError EditReport × Target
  run_edits relative now target original (err e) = (err e, target)
  run_edits relative now target original (ok edits) =
      finish_edit relative now target original (apply_edits original 1 edits)

  -- Of a file that cannot be decoded, the read raises.
  abbrev pub edit_text :
      Text → ℕ → EditArgs → Target → Option Text → Outcome EditError EditReport × Target
  edit_text relative now args target none = (err EditError.undecodable, target)
  edit_text relative now args target (some original) =
      run_edits relative now target original (edits_from_args args)

abbrev pub has_snapshot : Option ℕ → Bool
has_snapshot none = false
has_snapshot (some mtime) = true

module _ (files : TextFiles) where
  -- `call`, for the target that `safe_path` gives
  unfoldable pub call : Text → ℕ → EditArgs → Target → Outcome EditError EditReport × Target
  call relative now args target =
      if not target.exists
      then (err EditError.file_not_found, target)
      else if not target.is_file
      then (err EditError.not_a_file, target)
      else if not (has_snapshot target.snapshot_mtime)
      then (err EditError.file_not_read, target)
      else if not (is_current target.snapshot_mtime target.mtime)
      then (err EditError.stale_file, target)
      else edit_text files relative now args target (read_text files target)
