-- ===== src/Security/Environment/Built.antt =====
-- The environment that a command gets (src/runtime/security/environment_policy.py).
use local_coding_agent_harne.Prelude.{
  ◌≡◌, Bool, not, ◌&&◌, ◌||◌, none, some, List, [], ◌∷◌, ◌++◌, Text, codes, text_eq, text_eq_iff,
  contains, is_prefix, if◌then◌else◌, arith,
}
use local_coding_agent_harne.Plan.Models.{Ledger, lookup, insert}
use local_coding_agent_harne.Plan.Invariant.Ledger.{lookup-insert}
use local_coding_agent_harne.Security.Environment.{
  NameLibrary, never_inherit_env_names, default_env_names, python_io_encoding, python_utf8,
  is_allowed, inherit, build,
}

-- The names that a command inherits: none that looks like a secret.
abbrev pub is_inherited : NameLibrary → List Text → Text → Bool
is_inherited library extra_names name =
    not (library.is_sensitive (library.upper name))
    && not (contains (library.upper name) never_inherit_env_names)
    && (contains (library.upper name) (default_env_names ++ extra_names)
        || is_prefix (codes "LC_") (library.upper name))

module _ (library : NameLibrary) where
  lookup-inherit :
      (allowed : List Text) (values : Ledger) (name : Text)
      → lookup name (inherit library allowed values)
        ≡ (if is_allowed library name allowed then lookup name values else none)
  unfolding inherit lookup
  lookup-inherit allowed [] name = ground arith
  lookup-inherit allowed ((key, value) ∷ values) name =
      ground (arith, text_eq_iff key name, lookup-inherit allowed values name)

  is_allowed-is_inherited :
      (extra_names : List Text) (name : Text)
      → is_allowed library name (default_env_names ++ extra_names)
        ≡ is_inherited library extra_names name
  unfolding is_allowed
  is_allowed-is_inherited extra_names name = ground arith

-- A command gets two variables of Python, whatever their values were, and of every other name the
-- value of the source, if the name is allowed and neither reserved nor like that of a secret, else
-- nothing.
pub lookup-build :
    (library : NameLibrary) (extra_names : List Text) (values : Ledger) (name : Text)
    → lookup name (build library extra_names values) ≡ (
        if text_eq python_utf8 name
        then some (codes "1")
        else if text_eq python_io_encoding name
        then some (codes "utf-8")
        else if is_inherited library extra_names name
        then lookup name values
        else none)
unfolding build
lookup-build library extra_names values name =
    let allowed = default_env_names ++ extra_names in
    let rest = inherit library allowed values in
    let encoded = insert python_io_encoding (codes "utf-8") rest in
    rw (
      lookup-insert python_utf8 name (codes "1") encoded,
      lookup-insert python_io_encoding name (codes "utf-8") rest,
      lookup-inherit library allowed values name,
      is_allowed-is_inherited library extra_names name,
    )
