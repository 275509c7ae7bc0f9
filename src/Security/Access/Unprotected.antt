-- ===== src/Security/Access/Unprotected.antt =====
-- The permission gate over the access policy (src/runtime/security/permission_gate.py and
-- src/runtime/security/access_policy.py).
use local_coding_agent_harne.Prelude.{
  ◌≡◌, Bool, true, false, not, ◌||◌, none, some, List, [], Text, any_of, all_of, is_nil,
}
use local_coding_agent_harne.Security.Classification.{prefix_or}
use local_coding_agent_harne.Security.Models.{OperationKind, kind_is, Operation}
use local_coding_agent_harne.Security.Gate.{Surroundings, is_mutation}
use local_coding_agent_harne.Security.Access.{
  PathLibrary, forward_slashes, protected_read_prefixes, protected_write_prefixes,
  is_protected_read, is_protected_write,
}

module _ (library : PathLibrary) where
  -- A path that resolves to a place in the repository which is not protected.
  abbrev pub is_open : Surroundings → (Text → Bool) → Text → Bool
  is_open around test path = elim (around.safe_path path) [
    | none ↦ false
    | some target ↦ elim (library.relative_resolved_path target) [
      | none ↦ false
      | some relative ↦ not (test relative)
    ]
  ]

  abbrev pub is_unmentioned : List Text → Text → Bool
  is_unmentioned prefixes command =
      is_nil command
      || not (any_of (λ p. library.mentions_prefix (forward_slashes command) p) prefixes)

  -- An operation reads no path that is protected from reads, changes none that is protected from
  -- writes, and has no command that names such a path.
  pub record IsUnprotected (around : Surroundings) (operation : Operation) : Type 0 where
    pub reads :
        (not (kind_is operation.kind OperationKind.fs_read)
          || all_of (is_open around (is_protected_read library)) operation.paths)
        ≡ true
    pub writes :
        (not (is_mutation operation.kind)
          || all_of (is_open around (is_protected_write library)) operation.paths)
        ≡ true
    pub read_mentions :
        is_unmentioned protected_read_prefixes (prefix_or operation.command []) ≡ true
    pub git_config :
        (is_nil (prefix_or operation.command [])
          || not (library.reads_git_config (forward_slashes (prefix_or operation.command []))))
        ≡ true
    pub write_mentions :
        (not (is_mutation operation.kind)
          || is_unmentioned protected_write_prefixes (prefix_or operation.command []))
        ≡ true
