-- ===== src/Security/Risk.antt =====
-- src/runtime/security/risk_classifier.py: the risk of a shell command.
pub mod Tables
pub mod Recognized
pub mod Complete
pub mod Redirected
use local_coding_agent_harne.Prelude.{
  ℕ, zero, suc, ◌+◌, Bool, true, false, not, ◌&&◌, ◌||◌, Option, none, some, is_none, List, [], ◌∷◌,
  ◌++◌, map, length, leb, Text, codes, strip, is_nil, is_prefix, is_infix, any_of, all_of, contains,
  unique, split_words, splitlines, join, take, text_eq, if◌then◌else◌,
}
use local_coding_agent_harne.Security.Models.{BashRisk, BashRiskDecision, or_text, risk_is}
use local_coding_agent_harne.Security.Shell.{clean_path, mask_quoted_text, split_shell_segments}
use local_coding_agent_harne.Security.Shell.Effects.{
  ShellLibrary, ShellEffects, has_network, has_file_mutation, mutation_paths, clean_paths,
  analyze_shell_effects,
}
use local_coding_agent_harne.Security.Risk.Tables.{
  destructive_patterns, file_write_patterns, network_patterns, safe_check_prefixes,
  read_only_prefixes, python_inline_prefixes,
}

-- The regular expressions: of each match what the classifier reads of it. `python_opens` gives
-- path and mode, `python_path_writes` the path, `shell_delete` the command, `heredoc_start` the tag.
pub record Patterns : Type 0 where
  pub python_path_deletes : Text → List Text
  pub python_os_deletes : Text → List Text
  pub python_opens : Text → List (Text × Text)
  pub python_path_writes : Text → List Text
  pub shell_delete : Text → Option Text
  pub apply_patch : Text → Bool
  pub heredoc_start : Text → Option Text

-- `_matched_pattern`, and `_matched_file_write_pattern` on the keys
unfoldable pub matched_pattern : Text → List Text → Option Text
matched_pattern normalized [] = none
matched_pattern normalized (pattern ∷ patterns) =
    let later = matched_pattern normalized patterns in
    if is_infix pattern normalized then some pattern else later

-- `command == prefix or command.startswith(f"{prefix} ")`
abbrev pub has_prefix : Text → Text → Bool
has_prefix command prefix = text_eq command prefix || is_prefix (prefix ++ codes " ") command

-- `_matched_prefix`
unfoldable pub matched_prefix : Text → List Text → Option Text
matched_prefix command [] = none
matched_prefix command (prefix ∷ prefixes) =
    let later = matched_prefix command prefixes in
    if has_prefix command prefix then some prefix else later

-- DYNAMIC_SHELL_RE
unfoldable pub is_dynamic : Text → Bool
is_dynamic command =
    any_of (λ part. is_infix part command) (codes "$(" ∷ codes "`" ∷ codes "<(" ∷ codes ">(" ∷ [])

-- `sorted(prefixes, key=len, reverse=True)`, which keeps the order of equal lengths.
unfoldable pub insert_by_length : Text → List Text → List Text
insert_by_length x [] = x ∷ []
insert_by_length x (y ∷ ys) =
    let later = insert_by_length x ys in if leb (length y) (length x) then x ∷ y ∷ ys else y ∷ later

unfoldable pub sort_by_length : List Text → List Text
sort_by_length [] = []
sort_by_length (x ∷ xs) = insert_by_length x (sort_by_length xs)

abbrev pub starts_with_any : Text → List Text → Bool
starts_with_any text prefixes = any_of (λ prefix. is_prefix prefix text) prefixes

-- `f"{parts[0]} -m {parts[2]}".lower()`, if there are three parts
abbrev pub module_prefix : (Text → Text) → List Text → Text
module_prefix lower (first ∷ second ∷ third ∷ parts) = lower (first ++ codes " -m " ++ third)
module_prefix lower _ = codes "python -m"

-- `_command_prefix`
abbrev pub prefix_of_stripped : (Text → Text) → Text → Text
prefix_of_stripped lower stripped =
    let lowered = lower stripped in
    let known =
      matched_prefix lowered (sort_by_length (safe_check_prefixes ++ read_only_prefixes)) in
    let words = join (codes " ") (take 2 (split_words stripped)) in
    if starts_with_any lowered (codes "python -c" ∷ codes "python3 -c" ∷ codes "py -c" ∷ [])
    then codes "python -c"
    else if starts_with_any lowered (codes "python -m" ∷ codes "python3 -m" ∷ codes "py -m" ∷ [])
    then module_prefix lower (split_words stripped)
    else if starts_with_any lowered (codes "python " ∷ codes "python3 " ∷ codes "py " ∷ [])
    then codes "python script"
    else if is_prefix (codes "powershell") lowered
    then codes "powershell"
    else if is_prefix (codes "pwsh") lowered
    then codes "pwsh"
    else if is_prefix (codes "cmd /c") lowered
    then codes "cmd /c"
    else elim known [ none ↦ words | some prefix ↦ prefix ]

unfoldable pub command_prefix : (Text → Text) → Text → Option Text
command_prefix lower command =
    let stripped = strip command in
    if is_nil stripped then none else some (prefix_of_stripped lower stripped)

-- `_is_python_inline`
abbrev pub is_python_inline : Option Text → Bool
is_python_inline none = false
is_python_inline (some prefix) = contains prefix python_inline_prefixes

-- What `_classify_shell_segments` has seen so far.
pub record Seen : Type 0 where
  pub first_prefix : Option Text
  pub has_safe_check : Bool

abbrev pub unseen : Seen
unseen = record { first_prefix = none; has_safe_check = false }

abbrev pub first_or : Option Text → Text → Option Text
first_or none prefix = some prefix
first_or (some first) prefix = some first

abbrev pub see : Seen → Option Text → Text → Seen
see seen safe prefix = record {
  first_prefix = first_or seen.first_prefix prefix;
  has_safe_check = seen.has_safe_check || not (is_none safe);
}

-- The loop of `_classify_shell_segments`; `none` is its early return.
unfoldable pub recognize_from : Seen → List Text → Option Seen
recognize_from seen [] = some seen
recognize_from seen (segment ∷ segments) =
    let safe = matched_prefix segment safe_check_prefixes in
    elim (or_text safe (matched_prefix segment read_only_prefixes)) [
      | none ↦ none
      | some prefix ↦ recognize_from (see seen safe prefix) segments
    ]

abbrev pub risk_of_seen : Option Seen → Option (BashRisk × Option Text)
risk_of_seen none = none
risk_of_seen (some seen) = some (
  if seen.has_safe_check then BashRisk.safe_check else BashRisk.read_only_command,
  seen.first_prefix,
)

-- The loop of `_strip_heredoc_bodies`, with the tag of the heredoc that is open.
unfoldable pub strip_heredocs_from : (Text → Option Text) → Option Text → List Text → List Text
strip_heredocs_from start active [] = []
strip_heredocs_from start none (line ∷ lines) = line ∷ strip_heredocs_from start (start line) lines
strip_heredocs_from start (some tag) (line ∷ lines) =
    strip_heredocs_from start (if text_eq (strip line) tag then none else some tag) lines

unfoldable pub strip_heredoc_bodies : (Text → Option Text) → Text → Text
strip_heredoc_bodies start command =
    let lines = splitlines command in
    if is_nil lines then command else join (10 ∷ []) (strip_heredocs_from start none lines)

-- A decision without paths, hosts and effects.
abbrev pub plain_decision : BashRisk → Option Text → BashRiskDecision
plain_decision risk prefix = record {
  risk = risk;
  target_paths = [];
  command_prefix = prefix;
  writes_files = false;
  structured_tool = false;
  network_hosts = [];
}

abbrev pub file_decision : BashRisk → List Text → Option Text → Bool → BashRiskDecision
file_decision risk paths prefix writes = record {
  risk = risk;
  target_paths = paths;
  command_prefix = prefix;
  writes_files = writes;
  structured_tool = false;
  network_hosts = [];
}

abbrev pub apply_patch_decision : Option Text → BashRiskDecision
apply_patch_decision prefix = record {
  risk = BashRisk.file_write_via_bash;
  target_paths = [];
  command_prefix = prefix;
  writes_files = false;
  structured_tool = true;
  network_hosts = [];
}

abbrev pub network_decision : ShellEffects → Option Text → BashRiskDecision
network_decision effects prefix = record {
  risk = BashRisk.network;
  target_paths = mutation_paths effects;
  command_prefix = prefix;
  writes_files = has_file_mutation effects;
  structured_tool = false;
  network_hosts = effects.network_hosts;
}

abbrev pub segment_decision : Option (BashRisk × Option Text) → Option Text → BashRiskDecision
segment_decision none prefix = plain_decision BashRisk.unknown prefix
segment_decision (some (risk, first)) prefix = plain_decision risk first

module _ (library : ShellLibrary) (patterns : Patterns) where
  abbrev pub without_bodies : Text → Text
  without_bodies command = strip_heredoc_bodies (patterns.heredoc_start) command

  -- `normalized`
  unfoldable pub normalize : Text → Text
  normalize command =
      codes " " ++ library.lower (strip (mask_quoted_text (without_bodies command))) ++ codes " "

  unfoldable pub classify_shell_segments : Text → Option (BashRisk × Option Text)
  classify_shell_segments command =
      let segments = map (λ s. library.lower (strip s)) (split_shell_segments command) in
      if is_dynamic command || is_nil segments
      then none
      else risk_of_seen (recognize_from unseen segments)

  abbrev pub deleted_paths : Text → List Text
  deleted_paths command =
      clean_paths (library.lower) (patterns.python_path_deletes command)
      ++ clean_paths (library.lower) (patterns.python_os_deletes command)

  -- `_delete_details`: the paths, and whether it gives a kind
  unfoldable pub delete_details : Text → List Text × Bool
  delete_details command =
      let paths = deleted_paths command in
      if is_nil paths
      then ([], not (is_none (patterns.shell_delete (mask_quoted_text (without_bodies command)))))
      else (unique paths, true)

  -- `_python_write_details`: the paths, and whether it gives a kind
  unfoldable pub python_write_details : Text → List Text × Bool
  python_write_details command =
      let opens = patterns.python_opens command in
      let writes = patterns.python_path_writes command in
      if is_nil opens && is_nil writes then ([], false) else (
        unique (
            clean_paths (library.lower) (map (λ (o : Text × Text). o.0) opens)
            ++ clean_paths (library.lower) writes),
        true,
      )

  -- `effects.network_program or network_pattern or command_prefix`
  abbrev pub network_name : ShellEffects → Text → Option Text → Option Text
  network_name effects normalized prefix =
      or_text (or_text effects.network_program (matched_pattern normalized network_patterns)) prefix

  unfoldable pub classify_bash : Text → BashRiskDecision
  classify_bash command =
      let syntax = without_bodies command in
      let normalized = normalize command in
      let prefix = command_prefix (library.lower) command in
      let effects = analyze_shell_effects library syntax in
      let (delete_paths, deletes) = delete_details command in
      let (python_paths, writes) = python_write_details command in
      let writes_named = not (is_none (matched_pattern normalized file_write_patterns)) in
      if not (is_none (matched_pattern normalized destructive_patterns))
      then plain_decision BashRisk.destructive prefix
      else if deletes
      then file_decision BashRisk.file_delete_via_bash delete_paths prefix false
      else if not (is_nil python_paths) || writes
      then file_decision BashRisk.file_write_via_bash python_paths prefix false
      else if patterns.apply_patch (mask_quoted_text syntax)
      then apply_patch_decision prefix
      else if has_network effects || not (is_none (matched_pattern normalized network_patterns))
      then network_decision effects (network_name effects normalized prefix)
      else if writes_named
      then file_decision BashRisk.file_write_via_bash [] prefix true
      else if not (is_python_inline prefix) && has_file_mutation effects
      then file_decision BashRisk.file_write_via_bash (mutation_paths effects) prefix true
      else segment_decision (classify_shell_segments command) prefix
