-- ===== src/Session/Files.antt =====
-- src/runtime/session.py: the sets of changed, created and deleted files of a session and of its
-- current task, and the mutation versions.
pub mod Views
use local_coding_agent_harne.Prelude.{
  ℕ, ◌+◌, Bool, not, ◌&&◌, ◌||◌, List, [], ◌∷◌, Text, text_eq, contains, if◌then◌else◌, ◌==◌,
}

-- `set.add` and `set.discard`
unfoldable pub add : Text → List Text → List Text
add path paths = if contains path paths then paths else path ∷ paths

unfoldable pub discard : Text → List Text → List Text
discard path [] = []
discard path (p ∷ ps) = let rest = discard path ps in if text_eq path p then rest else p ∷ rest

pub record FileTracking : Type 0 where
  pub changed_files : List Text
  pub task_changed_files : List Text
  pub created_files : List Text
  pub task_created_files : List Text
  pub deleted_files : List Text
  pub task_deleted_files : List Text
  pub mutation_version : ℕ
  pub task_start_mutation_version : ℕ

unfoldable pub record_mutation : FileTracking → FileTracking
record_mutation f = record f { mutation_version = f.mutation_version + 1 }

unfoldable pub record_changed_file : Text → FileTracking → FileTracking
record_changed_file path f = record_mutation (record f {
  deleted_files = discard path f.deleted_files;
  task_deleted_files = discard path f.task_deleted_files;
  changed_files = add path f.changed_files;
  task_changed_files = add path f.task_changed_files;
})

unfoldable pub record_created_file : Text → FileTracking → FileTracking
record_created_file path f = record_changed_file path (record f {
  deleted_files = discard path f.deleted_files;
  task_deleted_files = discard path f.task_deleted_files;
  created_files = add path f.created_files;
  task_created_files = add path f.task_created_files;
})

-- The file was created in this task: it is forgotten.
abbrev pub forget_file : Text → FileTracking → FileTracking
forget_file path f = record f {
  task_created_files = discard path f.task_created_files;
  task_changed_files = discard path f.task_changed_files;
  created_files = discard path f.created_files;
  changed_files = discard path f.changed_files;
}

abbrev pub delete_from_session : Text → FileTracking → FileTracking
delete_from_session path f =
    if contains path f.created_files
    then record f {
      created_files = discard path f.created_files;
      changed_files = discard path f.changed_files;
    }
    else record f {
      changed_files = add path f.changed_files;
      deleted_files = add path f.deleted_files;
    }

abbrev pub delete_from_task : Text → FileTracking → FileTracking
delete_from_task path f = record_mutation (record f {
  task_deleted_files = add path f.task_deleted_files;
  task_changed_files = add path f.task_changed_files;
})

unfoldable pub record_deleted_file : Text → FileTracking → FileTracking
record_deleted_file path f =
    if contains path f.task_created_files
    then forget_file path f
    else delete_from_task path (delete_from_session path f)

abbrev pub has_task_mutations : FileTracking → Bool
has_task_mutations f = not (f.mutation_version == f.task_start_mutation_version)

-- The part of `reset_task_state` that is about files.
unfoldable pub reset_task_files : FileTracking → FileTracking
reset_task_files f = record f {
  task_start_mutation_version = f.mutation_version;
  task_changed_files = [];
  task_created_files = [];
  task_deleted_files = [];
}

-- One call of a method.
pub data FileCall : Type 0 where
  changed created deleted : Text → FileCall
  mutated task_reset : FileCall

unfoldable pub record_file : FileCall → FileTracking → FileTracking
record_file (FileCall.changed path) f = record_changed_file path f
record_file (FileCall.created path) f = record_created_file path f
record_file (FileCall.deleted path) f = record_deleted_file path f
record_file FileCall.mutated f = record_mutation f
record_file FileCall.task_reset f = reset_task_files f
