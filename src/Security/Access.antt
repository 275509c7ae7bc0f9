-- ===== src/Security/Access.antt =====
-- src/runtime/security/access_policy.py: AccessPolicy, with the prefixes that it has by default.
pub mod Unprotected
use local_coding_agent_harne.Prelude.{
  ℕ, Bool, true, false, not, ◌&&◌, ◌||◌, Option, none, some, List, [], ◌∷◌, ◌++◌, map, ◌==◌, Text,
  codes, text_eq, contains, any_of, is_nil, is_prefix, rstrip_of, unique, if◌then◌else◌,
}
use local_coding_agent_harne.Security.Gate.{Surroundings}

abbrev pub sandbox_required_read_prefixes : List Text
sandbox_required_read_prefixes = map codes (".git/config" ∷ ".git/hooks" ∷ [])

abbrev pub protected_read_prefixes : List Text
protected_read_prefixes =
    map codes (".agent" ∷ ".env" ∷ ".mcp.json" ∷ ".git/config" ∷ ".git/hooks" ∷ "~/.ssh" ∷ [])

abbrev pub protected_write_prefixes : List Text
protected_write_prefixes = map codes (
    ".agent" ∷ ".env" ∷ ".mcp.json" ∷ ".git/config" ∷ ".git/hooks" ∷ "~/.ssh" ∷ ".claude/commands"
    ∷ ".claude/agents" ∷ ".claude/skills" ∷ [])

-- What the policy calls of other libraries: `os.path.normcase`; the resolved path relative to the
-- resolved repository (none if this raises); a prefix resolved in the home or the repository; and
-- the searches of its two patterns in a command.
pub record PathLibrary : Type 0 where
  pub normcase : Text → Text
  pub relative_resolved_path : Text → Option Text
  pub resolve_prefix : Text → Text
  pub mentions_prefix : Text → Text → Bool
  pub reads_git_config : Text → Bool

abbrev pub forward_slashes : Text → Text
forward_slashes text = map (λ c. if c == 92 then 47 else c) text

-- `while normalized.startswith("./"): normalized = normalized[2:]`
unfoldable pub strip_current : Text → Text
strip_current [] = []
strip_current (c ∷ []) = c ∷ []
strip_current (c ∷ d ∷ text) =
    let rest = strip_current text in if c == 46 && d == 47 then rest else c ∷ d ∷ text

abbrev pub is_slash : ℕ → Bool
is_slash c = c == 47

-- `tuple(x for x in xs if test(x))`
abbrev pub filter : (Text → Bool) → List Text → List Text
filter test [] = []
filter test (prefix ∷ prefixes) =
    let rest = filter test prefixes in if test prefix then prefix ∷ rest else rest

module _ (library : PathLibrary) where
  unfoldable pub normalize : Text → Text
  normalize path = strip_current (forward_slashes (library.normcase path))

  -- `self.normalize(prefix).rstrip("/") + "/"`
  abbrev pub directory : Text → Text
  directory prefix = rstrip_of is_slash (normalize prefix) ++ codes "/"

  abbrev pub is_under : Text → Text → Bool
  is_under normalized prefix =
      text_eq normalized (normalize prefix) || is_prefix (directory prefix) normalized

  unfoldable pub is_protected_read : Text → Bool
  is_protected_read path =
      let normalized = normalize path in any_of (λ p. is_under normalized p) protected_read_prefixes

  unfoldable pub is_protected_write : Text → Bool
  is_protected_write path =
      let normalized = normalize path in
      any_of (λ p. is_under normalized p) protected_write_prefixes

  -- `is_protected_resolved_read` and `is_protected_resolved_write`
  abbrev pub or_protected : (Text → Bool) → Option Text → Bool
  or_protected test none = true
  or_protected test (some relative) = test relative

  unfoldable pub is_protected_resolved_read : Text → Bool
  is_protected_resolved_read target =
      or_protected is_protected_read (library.relative_resolved_path target)

  unfoldable pub is_protected_resolved_write : Text → Bool
  is_protected_resolved_write target =
      or_protected is_protected_write (library.relative_resolved_path target)

  -- `_sandbox_paths`
  abbrev pub sandbox_paths : List Text → List Text
  sandbox_paths prefixes = unique (map library.resolve_prefix prefixes)

  unfoldable pub sandbox_denied_read_paths : List Text
  sandbox_denied_read_paths =
      sandbox_paths
        (filter (λ p. not (contains p sandbox_required_read_prefixes)) protected_read_prefixes)

  unfoldable pub sandbox_denied_write_paths : List Text
  sandbox_denied_write_paths = sandbox_paths protected_write_prefixes

  -- `_protected_references`
  abbrev pub protected_references : Text → List Text → List Text
  protected_references command prefixes = filter (library.mentions_prefix command) prefixes

  unfoldable pub protected_read_references : Text → List Text
  protected_read_references command =
      let normalized = forward_slashes command in
      let references = protected_references normalized protected_read_prefixes in
      if library.reads_git_config normalized && not (contains (codes ".git/config") references)
      then references ++ codes ".git/config" ∷ []
      else references

  unfoldable pub protected_write_references : Text → List Text
  protected_write_references command =
      protected_references (forward_slashes command) protected_write_prefixes

  -- The surroundings of the gate with the repository's own access policy.
  unfoldable pub with_policy : Surroundings → Surroundings
  with_policy around = record around {
    protected_write_references = protected_write_references;
    protected_read_references = protected_read_references;
    is_protected_resolved_read = is_protected_resolved_read;
    is_protected_resolved_write = is_protected_resolved_write;
  }
