-- ===== src/Samples/Edits.antt =====
-- The theorems on edits of a file, on a text with two matches.
use local_coding_agent_harne.Prelude.{
  ◌≡◌, ◌⊎◌, refl, true, false, some, [], Text, codes, ok, err, arith,
}
use local_coding_agent_harne.Tools.EditFile.{
  Edit, EditError, RawOccurrence, RawEdits, EditArgs, count, apply_edit,
}
use local_coding_agent_harne.Tools.EditFile.Located.{
  IsReplacement, is_meant, apply_edit-IsReplacement,
}
use local_coding_agent_harne.Tools.EditFile.Call.{TextFiles, Target, call}
use local_coding_agent_harne.Tools.EditFile.Guarded.{IsCalled, call-IsEdited}

abbrev second : Edit
second = record {
  old_text = codes "ab";
  new_text = codes "x";
  occurrence = some 2;
  replace_all = false;
}

apply_edit-IsReplacement_example :
    ((is_meant (some 2) (count (codes "ab") (codes "abcab")) ≡ true)
      × (result : Text) × (apply_edit (codes "abcab") second 1
          ≡ ok (result, count (codes "ab") (codes "abcab")))
      × IsReplacement (codes "abcab") (codes "ab") (codes "x") 2 result)
    ⊎ ((is_meant (some 2) (count (codes "ab") (codes "abcab")) ≡ false)
        × (e : EditError) × (apply_edit (codes "abcab") second 1 ≡ err e))
apply_edit-IsReplacement_example =
    apply_edit-IsReplacement (codes "abcab") second 1 refl refl (λ e. absurd (ground arith))

abbrev args : EditArgs
args = record {
  path = codes "a";
  edits = RawEdits.missing;
  single = record {
    old_text = some (codes "ab");
    new_text = some (codes "x");
    occurrence = RawOccurrence.integer false 2;
    replace_all = false;
  };
}

-- A codec that refuses nothing.
abbrev files : TextFiles
files = record { decode = λ bytes. some bytes; encode = λ text. some text; linesep = codes "\n" }

abbrev target : Target
target = record {
  exists = true;
  is_file = true;
  content = codes "abcab";
  mtime = 3;
  snapshot_mtime = some 3;
  changed_files = [];
}

call-IsEdited_example :
    IsCalled files (codes "a") 4 args target (call files (codes "a") 4 args target)
call-IsEdited_example = call-IsEdited files (codes "a") 4 args target
