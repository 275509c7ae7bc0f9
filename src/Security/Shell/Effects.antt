-- ===== src/Security/Shell/Effects.antt =====
-- src/runtime/security/shell_analysis.py: what a command does to the network and to files.
use local_coding_agent_harne.Prelude.{
  Bool, true, false, not, ◌&&◌, ◌||◌, Option, none, some, is_none, List, [], ◌∷◌, ◌++◌, map, leb,
  Text, codes, is_nil, is_prefix, contains, unique, after_last, split_words, take, text_eq,
  if◌then◌else◌,
}
use local_coding_agent_harne.Security.Models.{or_text}
use local_coding_agent_harne.Security.Shell.{clean_path, redirection_targets, split_shell_segments}

-- What the analysis reads of `urlparse`.
pub record Url : Type 0 where
  pub scheme : Text
  pub hostname : Option Text

-- The library functions: `str.lower`, `shlex.split`, `none` where it raises ValueError, and
-- `urlparse`.
pub record ShellLibrary : Type 0 where
  pub lower : Text → Text
  pub shlex_split : Text → Option (List Text)
  pub urlparse : Text → Url

pub record ShellEffects : Type 0 where
  pub network_program : Option Text
  pub network_hosts : List Text
  pub write_paths : List Text
  pub metadata_write_paths : List Text
  pub directory_write_paths : List Text
  pub has_unscoped_file_mutation : Bool

abbrev pub has_network : ShellEffects → Bool
has_network effects = not (is_none effects.network_program)

abbrev pub has_file_mutation : ShellEffects → Bool
has_file_mutation effects =
    not (is_nil effects.write_paths)
    || not (is_nil effects.metadata_write_paths)
    || not (is_nil effects.directory_write_paths)
    || effects.has_unscoped_file_mutation

unfoldable pub mutation_paths : ShellEffects → List Text
mutation_paths effects =
    unique (effects.write_paths ++ effects.metadata_write_paths ++ effects.directory_write_paths)

-- `xs[1:]`
abbrev pub tail_of : List Text → List Text
tail_of [] = []
tail_of (x ∷ xs) = xs

-- `lowered_tokens[1:3]`
abbrev pub arguments : List Text → List Text
arguments tokens = take 2 (tail_of tokens)

-- `_program`
unfoldable pub program_of : List Text → Text
program_of [] = []
program_of (token ∷ tokens) = after_last 92 [] (after_last b'/' [] token)

-- `lowered_tokens[1]`
abbrev pub second_of : List Text → Text
second_of (first ∷ second ∷ tokens) = second
second_of _ = []

abbrev pub fetchers : List Text
fetchers =
    codes "curl"
    ∷ codes "wget"
    ∷ codes "invoke-webrequest"
    ∷ codes "invoke-restmethod"
    ∷ codes "iwr"
    ∷ codes "irm"
    ∷ []

-- `_network_program`
unfoldable pub network_program_of : List Text → Option Text
network_program_of tokens =
    let program = program_of tokens in
    let given = arguments tokens in
    if contains program fetchers
    then some program
    else if contains program (codes "pip" ∷ codes "pip3" ∷ codes "npm" ∷ [])
        && contains (codes "install") given
    then some (program ++ codes "-install")
    else if text_eq program (codes "git")
        && (contains (codes "clone") given
            || contains (codes "pull") given
            || contains (codes "fetch") given)
    then some (codes "git-" ++ second_of tokens)
    else none

abbrev pub starts_dash : Text → Bool
starts_dash token = is_prefix (codes "-") token

-- The options of a program that name its output.
abbrev pub output_options : Text → List Text
output_options program =
    if text_eq program (codes "curl")
    then codes "-o" ∷ codes "--output" ∷ []
    else if text_eq program (codes "wget")
    then codes "-O" ∷ []
    else if contains program (codes "invoke-webrequest" ∷ codes "iwr" ∷ [])
    then codes "-OutFile" ∷ codes "-outfile" ∷ []
    else []

-- The programs that write where the command does not say.
abbrev pub writes_somewhere : Text → Bool
writes_somewhere program = contains program (
    codes "wget"
    ∷ codes "git-clone"
    ∷ codes "git-pull"
    ∷ codes "git-fetch"
    ∷ codes "npm-install"
    ∷ codes "pip-install"
    ∷ codes "pip3-install"
    ∷ [])

-- `token.split("=", 1)[1]`
abbrev pub after_equals : Text → Text
after_equals [] = []
after_equals (c ∷ text) = elim (leb c b'=' && leb b'=' c) [
  | true ↦ text
  | false ↦ after_equals text
]

abbrev pub with_path : Option Text → List Text → List Text
with_path none paths = paths
with_path (some path) paths = path ∷ paths

-- Of each value its clean path, where it has one.
abbrev pub clean_paths : (Text → Text) → List Text → List Text
clean_paths lower [] = []
clean_paths lower (value ∷ values) = with_path (clean_path lower value) (clean_paths lower values)

-- `[token for token in tokens if not token.startswith("-")]`
abbrev pub positional : List Text → List Text
positional [] = []
positional (token ∷ tokens) = elim (starts_dash token) [
  | true ↦ positional tokens
  | false ↦ token ∷ positional tokens
]

-- `_chmod_paths`, whose first positional argument is the mode
unfoldable pub chmod_paths : (Text → Text) → List Text → List Text
chmod_paths lower tokens = clean_paths lower (tail_of (positional (tail_of tokens)))

unfoldable pub positional_paths : (Text → Text) → List Text → List Text
positional_paths lower tokens = clean_paths lower (positional tokens)

module _ (library : ShellLibrary) where
  -- `_tokens`
  abbrev pub tokens_or : Option (List Text) → Text → List Text
  tokens_or none segment = split_words segment
  tokens_or (some tokens) segment = tokens

  unfoldable pub tokens_of : Text → List Text
  tokens_of segment = tokens_or (library.shlex_split segment) segment

  abbrev pub host_of : Url → List Text
  host_of url = elim (url.hostname) [
    | none ↦ []
    | some [] ↦ []
    | some (c ∷ host) ↦
        if contains (url.scheme) (codes "http" ∷ codes "https" ∷ [])
        then library.lower (c ∷ host) ∷ []
        else []
  ]

  unfoldable pub network_hosts_of : List Text → List Text
  network_hosts_of [] = []
  network_hosts_of (token ∷ tokens) = host_of (library.urlparse token) ++ network_hosts_of tokens

  abbrev pub comparable : Text → Text
  comparable token = if is_prefix (codes "--") token then library.lower token else token

  -- One round of the loop of `_network_output_effects`: the paths it finds, and whether the
  -- program then writes where the command does not say.
  unfoldable pub output_round : Text → Bool → Text → List Text → List Text × Bool
  output_round program unknown token rest =
      if contains (comparable token) (map comparable (output_options program)) && not (is_nil rest)
      then (clean_paths library.lower (take 1 rest), false)
      else if text_eq program (codes "curl") && is_prefix (codes "--output=") (library.lower token)
      then (clean_paths library.lower (after_equals token ∷ []), false)
      else if text_eq program (codes "curl")
          && contains token (codes "-O" ∷ codes "--remote-name" ∷ [])
      then ([], true)
      else ([], unknown)

  unfoldable pub output_from : Text → Bool → List Text → List Text × Bool
  output_from program unknown [] = ([], unknown)
  output_from program unknown (token ∷ tokens) =
      let (found, now) = output_round program unknown token tokens in
      let (paths, last) = output_from program now tokens in (found ++ paths, last)

  -- `_network_output_effects`
  abbrev pub network_output_effects : List Text → Text → List Text × Bool
  network_output_effects tokens program = output_from program (writes_somewhere program) tokens

  -- The variables of `analyze_shell_effects`, except the redirections; the lists are not unique yet.
  abbrev pub nothing_found : ShellEffects
  nothing_found = record {
    network_program = none;
    network_hosts = [];
    write_paths = [];
    metadata_write_paths = [];
    directory_write_paths = [];
    has_unscoped_file_mutation = false;
  }

  unfoldable pub add_network : ShellEffects → List Text → Option Text → ShellEffects
  add_network found tokens none = found
  add_network found tokens (some detected) =
      let (paths, unknown) = network_output_effects tokens detected in
      record {
        network_program = or_text found.network_program (some detected);
        network_hosts = found.network_hosts ++ network_hosts_of tokens;
        write_paths = found.write_paths ++ paths;
        metadata_write_paths = found.metadata_write_paths;
        directory_write_paths = found.directory_write_paths;
        has_unscoped_file_mutation = found.has_unscoped_file_mutation || unknown;
      }

  abbrev pub add_metadata : ShellEffects → List Text → ShellEffects
  add_metadata found paths = record {
    network_program = found.network_program;
    network_hosts = found.network_hosts;
    write_paths = found.write_paths;
    metadata_write_paths = found.metadata_write_paths ++ paths;
    directory_write_paths = found.directory_write_paths;
    has_unscoped_file_mutation = found.has_unscoped_file_mutation;
  }

  abbrev pub add_directories : ShellEffects → List Text → ShellEffects
  add_directories found paths = record {
    network_program = found.network_program;
    network_hosts = found.network_hosts;
    write_paths = found.write_paths;
    metadata_write_paths = found.metadata_write_paths;
    directory_write_paths = found.directory_write_paths ++ paths;
    has_unscoped_file_mutation = found.has_unscoped_file_mutation;
  }

  -- One round of the loop over the segments.
  unfoldable pub add_segment : ShellEffects → List Text → ShellEffects
  add_segment found [] = found
  add_segment found (token ∷ rest) =
      let tokens = token ∷ rest in
      let lowered = map library.lower tokens in
      let program = program_of lowered in
      let networked = add_network found tokens (network_program_of lowered) in
      if text_eq program (codes "chmod")
      then add_metadata networked (chmod_paths library.lower tokens)
      else if contains program (codes "mkdir" ∷ codes "md" ∷ [])
      then add_directories networked (positional_paths library.lower rest)
      else networked

  unfoldable pub add_segments : ShellEffects → List Text → ShellEffects
  add_segments found [] = found
  add_segments found (segment ∷ segments) =
      add_segments (add_segment found (tokens_of segment)) segments

  unfoldable pub analyze_shell_effects : Text → ShellEffects
  analyze_shell_effects command =
      let found = add_segments nothing_found (split_shell_segments command) in
      record {
        network_program = found.network_program;
        network_hosts = unique found.network_hosts;
        write_paths = unique (redirection_targets library.lower command ++ found.write_paths);
        metadata_write_paths = unique found.metadata_write_paths;
        directory_write_paths = unique found.directory_write_paths;
        has_unscoped_file_mutation = found.has_unscoped_file_mutation;
      }
