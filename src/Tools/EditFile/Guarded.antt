-- ===== src/Tools/EditFile/Guarded.antt =====
-- What a call of EditFileTool does to its file (src/tools/edit_file.py).
use local_coding_agent_harne.Prelude.{
  ℕ, ◌≡◌, ◌⊎◌, refl, Bool, true, false, Option, none, some, List, Text, text_eq, text_eq_refl,
  contains, Outcome, ok, err, arith, Bool-cases, inl, inr,
}
use local_coding_agent_harne.Tools.EditFile.{Edit, EditArgs, EditError, edits_from_args}
use local_coding_agent_harne.Tools.EditFile.Call.{
  TextFiles, Target, EditReport, apply_edits, is_current, add_file, emptied, read_text, encoded,
  write_edited, finish_edit, run_edits, edit_text, has_snapshot, call,
}

abbrev pub is_change : Outcome EditError EditReport → Bool
is_change (ok report) = report.changed
is_change (err e) = false

-- Nothing is changed, and no change is reported.
pub record IsUnedited (target : Target) (outcome : Outcome EditError EditReport) (after : Target)
    : Type 0 where
  pub same : after ≡ target
  pub reported : is_change outcome ≡ false

add_file-contains : (path : Text) (files : List Text) → contains path (add_file path files) ≡ true
unfolding contains
add_file-contains path files = ground (arith, text_eq_refl path)

module _ (files : TextFiles) (relative : Text) (now : ℕ) (args : EditArgs) (target : Target) where
  -- Every edit has succeeded in turn on the text of a file that had been read since its last change.
  pub record AreApplied (original updated : Text) (counts : List ℕ) : Type 0 where
    pub fresh : is_current target.snapshot_mtime target.mtime ≡ true
    pub read : read_text files target ≡ some original
    pub edits : List Edit
    pub asked : edits_from_args args ≡ ok edits
    pub applied : apply_edits original 1 edits ≡ ok (updated, counts)
    pub differs : text_eq updated original ≡ false

  -- The file holds the bytes of the edited text, it counts as read, and it is recorded.
  pub record IsEdited (outcome : Outcome EditError EditReport) (after : Target) : Type 0 where
    pub original : Text
    pub updated : Text
    pub counts : List ℕ
    pub edited : AreApplied original updated counts
    pub written : encoded files updated ≡ some after.content
    pub reported : outcome ≡ ok record { occurrences = counts; changed = true }
    pub read_again : is_current after.snapshot_mtime after.mtime ≡ true
    pub recorded : contains relative after.changed_files ≡ true

  -- The edited text cannot be encoded: the call raises, and the file is empty.
  pub record IsEmptied (outcome : Outcome EditError EditReport) (after : Target) : Type 0 where
    pub original : Text
    pub updated : Text
    pub counts : List ℕ
    pub edited : AreApplied original updated counts
    pub unencodable : encoded files updated ≡ none
    pub raised : outcome ≡ err EditError.unencodable
    pub empty : after ≡ emptied now target

  abbrev pub IsCalled : Outcome EditError EditReport × Target → Type 0
  IsCalled (outcome, after) =
      IsUnedited target outcome after ⊎ IsEdited outcome after ⊎ IsEmptied outcome after

  write_edited-IsCalled :
      (original updated : Text) (counts : List ℕ) (bytes : Option (List ℕ))
      → AreApplied original updated counts
      → encoded files updated ≡ bytes
      → IsCalled (write_edited files relative now target counts bytes)
  write_edited-IsCalled original updated counts none a e = inr (
      inr record {
        original = original;
        updated = updated;
        counts = counts;
        edited = a;
        unencodable = e;
        raised = refl;
        empty = refl;
      })
  write_edited-IsCalled original updated counts (some bytes) a e = inr (
      inl record {
        original = original;
        updated = updated;
        counts = counts;
        edited = a;
        written = e;
        reported = refl;
        read_again = ground arith;
        recorded = add_file-contains relative target.changed_files;
      })

  finish_edit-IsCalled :
      (original : Text) (edits : List Edit) (result : Outcome EditError (Text × List ℕ))
      → is_current target.snapshot_mtime target.mtime ≡ true
      → read_text files target ≡ some original
      → edits_from_args args ≡ ok edits
      → apply_edits original 1 edits ≡ result
      → IsCalled (finish_edit files relative now target original result)
  finish_edit-IsCalled original edits (err e) f t a r = inl record { same = refl; reported = refl }
  finish_edit-IsCalled original edits (ok (updated, counts)) f t a r =
      elim (Bool-cases (text_eq updated original)) [
        | inl e ↦ rw e (inl record { same = refl; reported = refl })
        | inr n ↦
            let applied : AreApplied original updated counts = record {
              fresh = f;
              read = t;
              edits = edits;
              asked = a;
              applied = r;
              differs = n;
            } in
            simp n
              (write_edited-IsCalled original updated counts (encoded files updated) applied refl)
      ]

  run_edits-IsCalled :
      (original : Text) (edits : Outcome EditError (List Edit))
      → is_current target.snapshot_mtime target.mtime ≡ true
      → read_text files target ≡ some original
      → edits_from_args args ≡ edits
      → IsCalled (run_edits files relative now target original edits)
  run_edits-IsCalled original (err e) f t a = inl record { same = refl; reported = refl }
  run_edits-IsCalled original (ok edits) f t a =
      finish_edit-IsCalled original edits (apply_edits original 1 edits) f t a refl

  edit_text-IsCalled :
      (text : Option Text)
      → is_current target.snapshot_mtime target.mtime ≡ true
      → read_text files target ≡ text
      → IsCalled (edit_text files relative now args target text)
  edit_text-IsCalled none f t = inl record { same = refl; reported = refl }
  edit_text-IsCalled (some original) f t =
      run_edits-IsCalled original (edits_from_args args) f t refl

  refused : (e : EditError) → IsCalled (err e, target)
  refused e = inl record { same = refl; reported = refl }

-- A call has one of three outcomes. It changes nothing, the file, its snapshot and the changed files
-- included, and reports no change; or every edit has succeeded in turn on the text of a file that
-- had been read since its last change, the file holds the bytes of the edited text, all of its line
-- ends being those of the platform, it counts as read, and it is recorded; or the edits have
-- succeeded, their text cannot be encoded, and the call raises and leaves the file empty.
pub call-IsEdited :
    (files : TextFiles) (relative : Text) (now : ℕ) (args : EditArgs) (target : Target)
    → IsCalled files relative now args target (call files relative now args target)
unfolding call
call-IsEdited files relative now args target = elim (Bool-cases target.exists) [
  | inr a ↦ simp a (refused files relative now args target EditError.file_not_found)
  | inl a ↦ elim (Bool-cases target.is_file) [
    | inr b ↦ simp (a, b) (refused files relative now args target EditError.not_a_file)
    | inl b ↦ elim (Bool-cases (has_snapshot target.snapshot_mtime)) [
      | inr c ↦ simp (a, b, c) (refused files relative now args target EditError.file_not_read)
      | inl c ↦ elim (Bool-cases (is_current target.snapshot_mtime target.mtime)) [
        | inr d ↦ simp (a, b, c, d) (refused files relative now args target EditError.stale_file)
        | inl d ↦
            simp (a, b, c, d)
              (edit_text-IsCalled files relative now args target (read_text files target) d refl)
      ]
    ]
  ]
]
