-- ===== src/Samples/Commands.antt =====
-- The theorems on shell commands, on small commands and a library that lowers nothing.
use local_coding_agent_harne.Prelude.{
  ◌≡◌, refl, true, false, none, some, [], ◌∷◌, ◌++◌, Text, List, Option, if◌then◌else◌, codes,
  split_words, is_prefix, is_infix, strip, drop_spaces, lines_from, join, after_last, drop_of,
  rstrip_of, unique_from, contains, text_eq, ◌↔◌, unique, length, ◌+◌,
}
use local_coding_agent_harne.Prelude
use local_coding_agent_harne.Security.Models.{
  BashRisk, OperationKind, PermissionMode, PermissionBehavior, create_decision, Permissions,
}
use local_coding_agent_harne.Security.Shell.{
  split_shell_segments, redirection_targets, mask_quoted_text,
}
use local_coding_agent_harne.Security.Shell.Effects.{
  ShellLibrary, analyze_shell_effects, add_network, add_segment, add_segments, chmod_paths,
  network_hosts_of, network_program_of, output_from, output_round, positional_paths, program_of,
  tokens_of,
}
use local_coding_agent_harne.Security.Risk.{
  Patterns, classify_bash, command_prefix, plain_decision, matched_pattern, matched_prefix,
  normalize, strip_heredoc_bodies, strip_heredocs_from, delete_details, python_write_details,
  classify_shell_segments, insert_by_length, is_dynamic, recognize_from, sort_by_length,
}
use local_coding_agent_harne.Security.Shell.{
  unquoted, targets_from, redirection, mask_from, masked, next_quoting, clean_path, is_inert,
  read_word, skip_spaces, split_from, trim_path,
}
use local_coding_agent_harne.Security.Shell.Cut.{cut, glue, kept}
use local_coding_agent_harne.Security.Shell.Segments.{AreSegments, split_shell_segments-glue}
use local_coding_agent_harne.Security.Shell.Redirections.{redirection_targets-more}
use local_coding_agent_harne.Security.Risk.Recognized.{is_passive_risk, IsPassive}
use local_coding_agent_harne.Security.Risk.Complete.{classify_bash-IsPassive_iff}
use local_coding_agent_harne.Security.Gate.{
  Surroundings, ToolCall, check, check_access, check_bash_protocol, classify_operation,
  check_access_policy, decide_risk, with_operation, decide, decide_read_only,
}
use local_coding_agent_harne.Security.Classification.{
  classify_bash_operation, bash_process, bash_approval_scope,
}
use local_coding_agent_harne.Security.Rules.{match_rule}
use local_coding_agent_harne.Security.Gate.Commands.{with_classifier, check-IsPassive}

abbrev library : ShellLibrary
library = record {
  lower = λ text. text;
  shlex_split = λ text. some (split_words text);
  urlparse = λ text. record {
    scheme = if is_prefix (codes "http://") text then codes "http" else [];
    hostname = some (codes "h");
  };
}

abbrev patterns : Patterns
patterns = record {
  python_path_deletes = λ command. [];
  python_os_deletes = λ command. [];
  python_opens = λ command. [];
  python_path_writes = λ command. [];
  shell_delete = λ command. if is_prefix (codes "rm ") command then some (codes "rm") else none;
  apply_patch = λ command. is_prefix (codes "apply_patch ") command;
  heredoc_start = λ line. none;
}

abbrev two_commands : Text
two_commands = codes "cd 'a;b' && git status"

split_shell_segments-glue_example :
    (glue (cut two_commands) ≡ two_commands)
    × (split_shell_segments two_commands ≡ kept (cut two_commands))
    × AreSegments (split_shell_segments two_commands)
split_shell_segments-glue_example = split_shell_segments-glue two_commands

redirection_targets-more_example :
    unique (targets_from (library.lower) (2 + length two_commands) unquoted none two_commands)
    ≡ redirection_targets (library.lower) two_commands
redirection_targets-more_example = redirection_targets-more (library.lower) 2 two_commands

classify_bash-IsPassive_iff_example :
    (is_passive_risk (classify_bash library patterns (codes "git status")).risk ≡ true)
    ↔ IsPassive library patterns (codes "git status")
classify_bash-IsPassive_iff_example =
    classify_bash-IsPassive_iff library patterns (codes "git status")

abbrev around : Surroundings
around = record {
  classify_bash = λ command. classify_bash library patterns command;
  safe_path = λ path. some path;
  relative_path = λ path. path;
  protected_write_references = λ command. [];
  protected_read_references = λ command. [];
  is_protected_resolved_read = λ path. false;
  is_protected_resolved_write = λ path. false;
}

abbrev listing : ToolCall
listing = record {
  name = codes "bash";
  operation = record {
    kind = OperationKind.process_exec;
    is_bash = true;
    subject = codes "ls";
    paths = [];
    command = some (codes "ls");
    scope_key = some (codes "bash:ls");
    terminal_on_deny = false;
    is_read_only = false;
    is_destructive = false;
    is_sensitive = false;
    bash_risk = none;
  };
  verifies = false;
  check_permissions = λ operation. none;
}

abbrev permissions : Permissions
permissions = record {
  permission_mode = PermissionMode.read_only;
  permission_rules = [];
  approved_permission_scopes = [];
  denied_permission_scopes = [];
  task_created_files = [];
  prompt_policy_is_deny = false;
  sandbox_allows_unknown_bash = false;
  sandbox_auto_allowed_unknown_bash_count = 0;
  trace = [];
}

listing-risk :
    classify_bash library patterns (codes "ls")
    ≡ plain_decision BashRisk.read_only_command (some (codes "ls"))
unfolding classify_bash matched_pattern is_infix normalize is_prefix strip mask_quoted_text
    mask_from strip_heredoc_bodies lines_from join strip_heredocs_from masked next_quoting
    delete_details python_write_details analyze_shell_effects after_last drop_of rstrip_of
    Prelude.split_from unique_from contains drop_spaces text_eq classify_shell_segments
    command_prefix insert_by_length is_dynamic matched_prefix recognize_from sort_by_length
    add_network add_segment add_segments chmod_paths network_hosts_of network_program_of output_from
    output_round positional_paths program_of tokens_of clean_path is_inert read_word redirection
    redirection_targets skip_spaces split_from split_shell_segments targets_from trim_path
listing-risk = refl

listing-allowed :
    (check (with_classifier library patterns around) listing permissions).0.behavior
    ≡ PermissionBehavior.allow
unfolding check check_access check_bash_protocol classify_operation classify_bash_operation
    bash_process with_classifier check_access_policy decide_risk with_operation decide
    decide_read_only create_decision match_rule contains bash_approval_scope
listing-allowed = simp listing-risk refl

check-IsPassive_example : IsPassive library patterns (codes "ls")
check-IsPassive_example =
    check-IsPassive library patterns around listing permissions refl refl refl listing-allowed
