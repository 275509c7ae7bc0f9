-- ===== src/Security/Environment.antt =====
-- src/runtime/security/environment_policy.py: EnvironmentPolicy, which selects the variables that a
-- command inherits.
pub mod Built
use local_coding_agent_harne.Prelude.{
  ℕ, zero, suc, ◌-◌, Bool, true, false, not, ◌&&◌, ◌||◌, Option, List, [], ◌∷◌, ◌++◌, map, length,
  Text, codes, strip, contains, is_nil, is_none, is_prefix, if◌then◌else◌,
}
use local_coding_agent_harne.Plan.Models.{Ledger, lookup, insert}

abbrev pub never_inherit_env_names : List Text
never_inherit_env_names = map codes ("ANTHROPIC_API_KEY" ∷ "OPENAI_API_KEY" ∷ [])

abbrev pub default_env_names : List Text
default_env_names = map codes (
    "APPDATA" ∷ "COLORTERM" ∷ "COMSPEC" ∷ "CONDA_PREFIX" ∷ "FORCE_COLOR" ∷ "HOME" ∷ "LANG"
    ∷ "LOCALAPPDATA" ∷ "LOGNAME" ∷ "NO_COLOR" ∷ "PATH" ∷ "PATHEXT" ∷ "SHELL" ∷ "SYSTEMROOT" ∷ "TEMP"
    ∷ "TERM" ∷ "TMP" ∷ "TMPDIR" ∷ "USER" ∷ "USERNAME" ∷ "USERPROFILE" ∷ "VIRTUAL_ENV" ∷ "WINDIR"
    ∷ "XDG_RUNTIME_DIR" ∷ [])

-- `str.upper`, and the search of SENSITIVE_ENV_NAME_RE
pub record NameLibrary : Type 0 where
  pub upper : Text → Text
  pub is_sensitive : Text → Bool

abbrev pub python_io_encoding : Text
python_io_encoding = codes "PYTHONIOENCODING"

abbrev pub python_utf8 : Text
python_utf8 = codes "PYTHONUTF8"

-- `EnvironmentPolicy.__init__`
unfoldable pub init_extra_names : List Text → List Text
init_extra_names [] = []
init_extra_names (name ∷ names) =
    let rest = init_extra_names names in if is_nil (strip name) then rest else strip name ∷ rest

module _ (library : NameLibrary) where
  -- `_is_allowed`
  unfoldable pub is_allowed : Text → List Text → Bool
  is_allowed name allowed_names =
      let normalized = library.upper name in
      if contains normalized never_inherit_env_names
      then false
      else if library.is_sensitive normalized
      then false
      else contains normalized allowed_names || is_prefix (codes "LC_") normalized

  -- The comprehension of `build`
  unfoldable pub inherit : List Text → Ledger → Ledger
  inherit allowed_names [] = []
  inherit allowed_names ((name, value) ∷ values) =
      let rest = inherit allowed_names values in
      if is_allowed name allowed_names then (name, value) ∷ rest else rest

  unfoldable pub build : List Text → Ledger → Ledger
  build extra_names values = insert python_utf8 (codes "1") (
      insert python_io_encoding (codes "utf-8") (inherit (default_env_names ++ extra_names) values))

  -- The number of the source's names that are among the built ones
  abbrev pub count_inherited : Ledger → Ledger → ℕ
  count_inherited inherited [] = 0
  count_inherited inherited ((name, value) ∷ values) =
      let rest = count_inherited inherited values in
      if not (is_none (lookup name inherited)) then suc rest else rest

  -- "filtered_count" of `metadata`
  unfoldable pub filtered_count : List Text → Ledger → ℕ
  filtered_count extra_names values =
      length values - count_inherited (build extra_names values) values
