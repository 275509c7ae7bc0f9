-- ===== src/Session/Files/Views.antt =====
-- What the sets of src/runtime/session.py say of one path: an abstract state of each file.
use local_coding_agent_harne.Prelude.{
  ◌≡◌, refl, sym, subst, Bool, true, false, not, ◌&&◌, ◌||◌, List, [], ◌∷◌, Text, text_eq,
  text_eq_iff, text_eq_refl, contains, if◌then◌else◌, arith, Bool-cases, inl, inr,
}
use local_coding_agent_harne.Session.Files.{
  add, discard, FileTracking, record_mutation, record_changed_file, record_created_file,
  record_deleted_file, reset_task_files, FileCall, record_file,
}

pub contains-add :
    (q p : Text) (ps : List Text) → contains q (add p ps) ≡ (text_eq q p || contains q ps)
unfolding add contains
contains-add q p ps = elim (Bool-cases (text_eq q p)) [
  | inl e ↦
      subst (λ x. contains q (add x ps) ≡ (text_eq q x || contains q ps)) ((text_eq_iff q p).0 e)
        (ground (arith, text_eq_refl q))
  | inr e ↦ ground arith
]

contains-discard :
    (q p : Text) (ps : List Text) → contains q (discard p ps) ≡ (not (text_eq q p) && contains q ps)
unfolding discard contains
contains-discard q p [] = ground arith
contains-discard q p (x ∷ xs) =
    let ih = contains-discard q p xs in
    elim (Bool-cases (text_eq p x)) [
      | inl e ↦
          subst (λ y. contains q (discard p (y ∷ xs)) ≡ (not (text_eq q p) && contains q (y ∷ xs)))
            ((text_eq_iff p x).0 e) (ground (arith, ih, text_eq_refl p))
      | inr e ↦ elim (Bool-cases (text_eq q p)) [
        | inl d ↦
            let same : text_eq q x ≡ false =
              subst (λ y. text_eq y x ≡ false) (sym ((text_eq_iff q p).0 d)) e in
            ground arith
        | inr d ↦ ground arith
      ]
    ]

-- Which of the six sets contain a path.
pub record View : Type 0 where
  pub changed : Bool
  pub task_changed : Bool
  pub created : Bool
  pub task_created : Bool
  pub deleted : Bool
  pub task_deleted : Bool

abbrev pub view : Text → FileTracking → View
view q f = record {
  changed = contains q f.changed_files;
  task_changed = contains q f.task_changed_files;
  created = contains q f.created_files;
  task_created = contains q f.task_created_files;
  deleted = contains q f.deleted_files;
  task_deleted = contains q f.task_deleted_files;
}

-- The life of one file, as the calls describe it.
abbrev pub changed_view : View → View
changed_view v = record v {
  deleted = false;
  task_deleted = false;
  changed = true;
  task_changed = true;
}

abbrev pub created_view : View → View
created_view v = changed_view (record v { created = true; task_created = true })

abbrev pub deleted_view : View → View
deleted_view v =
    if v.task_created
    then record v { task_created = false; task_changed = false; created = false; changed = false }
    else if v.created
    then record v { created = false; changed = false; task_deleted = true; task_changed = true }
    else record v { changed = true; deleted = true; task_deleted = true; task_changed = true }

abbrev pub reset_view : View → View
reset_view v = record v { task_changed = false; task_created = false; task_deleted = false }

-- What a call does to the view of `q`.
abbrev pub view_step : Text → FileCall → View → View
view_step q (FileCall.changed p) v = if text_eq q p then changed_view v else v
view_step q (FileCall.created p) v = if text_eq q p then created_view v else v
view_step q (FileCall.deleted p) v = if text_eq q p then deleted_view v else v
view_step q FileCall.mutated v = v
view_step q FileCall.task_reset v = reset_view v

changed-view :
    (q p : Text) (f : FileTracking)
    → view q (record_changed_file p f) ≡ view_step q (FileCall.changed p) (view q f)
unfolding record_changed_file record_mutation
changed-view q p f = grind (arith, contains-add, contains-discard)

created-view :
    (q p : Text) (f : FileTracking)
    → view q (record_created_file p f) ≡ view_step q (FileCall.created p) (view q f)
unfolding record_created_file record_changed_file record_mutation
created-view q p f = grind (arith, contains-add, contains-discard)

deleted-view :
    (q p : Text) (f : FileTracking)
    → view q (record_deleted_file p f) ≡ view_step q (FileCall.deleted p) (view q f)
unfolding record_deleted_file record_mutation
deleted-view q p f = elim (Bool-cases (text_eq q p)) [
  | inl e ↦
      let same = (text_eq_iff q p).0 e in
      subst (λ x. view q (record_deleted_file x f) ≡ view_step q (FileCall.deleted x) (view q f))
        same (grind (arith, contains-add, contains-discard, text_eq_refl))
  | inr e ↦ grind (arith, contains-add, contains-discard)
]

-- Every call acts on each path alone, as `view_step` says of the file's six flags: another path's
-- flags stay as they are, but for the task's flags at its reset.
pub record_file-view :
    (q : Text) (call : FileCall) (f : FileTracking)
    → view q (record_file call f) ≡ view_step q call (view q f)
unfolding record_file
record_file-view q (FileCall.changed p) f = changed-view q p f
record_file-view q (FileCall.created p) f = created-view q p f
record_file-view q (FileCall.deleted p) f = deleted-view q p f
record_file-view q FileCall.mutated f = unfold record_mutation in refl
record_file-view q FileCall.task_reset f = unfold reset_task_files contains in refl

abbrev pub implied : Bool → Bool → Bool
implied a b = not a || b

-- What the sets promise of one path.
abbrev pub is_coherent : View → Bool
is_coherent v =
    implied v.created v.changed
    && implied v.deleted v.changed
    && not (v.created && v.deleted)
    && implied v.task_created (v.created && v.task_changed)
    && implied v.task_deleted v.task_changed
    && not (v.task_created && v.task_deleted)

unfoldable pub IsCoherent : FileTracking → Type 0
IsCoherent f = (q : Text) → is_coherent (view q f) ≡ true

step-coherent :
    (q : Text) (call : FileCall) (v : View)
    → is_coherent v ≡ true
    → is_coherent (view_step q call v) ≡ true
step-coherent q (FileCall.changed p) v h = ground arith
step-coherent q (FileCall.created p) v h = ground arith
step-coherent q (FileCall.deleted p) v h = ground arith
step-coherent q FileCall.mutated v h = h
step-coherent q FileCall.task_reset v h = ground arith

-- Every call keeps the sets coherent: created and deleted files are changed files, no file is
-- both created and deleted, and likewise in the task, whose created files are created files.
pub record_file-IsCoherent :
    (call : FileCall) (f : FileTracking) → IsCoherent f → IsCoherent (record_file call f)
unfolding IsCoherent
record_file-IsCoherent call f h q =
    subst (λ v. is_coherent v ≡ true) (sym (record_file-view q call f))
      (step-coherent q call (view q f) (h q))

-- A file that is created and then deleted in one task is in none of the six sets afterwards,
-- whatever was recorded of it before, also when it was there before the task and was deleted.
pub deleted-created :
    (p : Text) (f : FileTracking)
    → view p (record_deleted_file p (record_created_file p f)) ≡ record {
      changed = false;
      task_changed = false;
      created = false;
      task_created = false;
      deleted = false;
      task_deleted = false;
    }
deleted-created p f = grind (arith, deleted-view p p, created-view p p f, text_eq_refl p)
