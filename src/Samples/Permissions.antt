-- ===== src/Samples/Permissions.antt =====
-- The theorems on permissions, on a tool that reads a file and a command that writes one.
use local_coding_agent_harne.Prelude.{
  ◌≡◌, ◌⊎◌, refl, true, false, none, some, [], ◌∷◌, ◌||◌, codes, text_eq, contains, is_infix, arith,
}
use local_coding_agent_harne.Security.Rules.{match_rule}
use local_coding_agent_harne.Security.Models.{
  OperationKind, PermissionMode, PermissionBehavior, BashRisk, Operation, DecisionReason,
  PermissionDecision, create_decision, Permissions,
}
use local_coding_agent_harne.Security.Gate.{
  Surroundings, ToolCall, check_bash_protocol, classify_operation, check_access_policy,
  check_access, decide, decide_read_only, check,
}
use local_coding_agent_harne.Security.Gate.Cleared.{IsCleared, check-IsCleared, check-deny_scope}
use local_coding_agent_harne.Security.Access.{PathLibrary, is_protected_resolved_read}
use local_coding_agent_harne.Security.Approval.{
  decision_scope, decided, once_answers, scope_answers, deny_scope, allow_scope, ask_user, resolve,
}
use local_coding_agent_harne.Security.Approval.Scopes.{
  IsApproved, resolve-allow_scope, resolve-allowed,
}

-- Every path is safe but ".env", which is protected; a command is of unknown risk.
abbrev around : Surroundings
around = record {
  classify_bash = λ command. record {
    risk = BashRisk.unknown;
    target_paths = [];
    command_prefix = none;
    writes_files = false;
    structured_tool = false;
    network_hosts = [];
  };
  safe_path = λ path. some path;
  relative_path = λ path. path;
  protected_write_references = λ command. [];
  protected_read_references = λ command. [];
  is_protected_resolved_read = λ path. text_eq path (codes ".env");
  is_protected_resolved_write = λ path. text_eq path (codes ".env");
}

abbrev reading : Operation
reading = record {
  kind = OperationKind.fs_read;
  is_bash = false;
  subject = codes "a";
  paths = codes "a" ∷ [];
  command = none;
  scope_key = some (codes "read:a");
  terminal_on_deny = false;
  is_read_only = true;
  is_destructive = false;
  is_sensitive = false;
  bash_risk = none;
}

abbrev read_file : ToolCall
read_file = record {
  name = codes "read_file";
  operation = reading;
  verifies = false;
  check_permissions = λ operation. none;
}

abbrev permissions : Permissions
permissions = record {
  permission_mode = PermissionMode.read_only;
  permission_rules = [];
  approved_permission_scopes = [];
  denied_permission_scopes = [];
  task_created_files = [];
  prompt_policy_is_deny = false;
  sandbox_allows_unknown_bash = false;
  sandbox_auto_allowed_unknown_bash_count = 0;
  trace = [];
}

check-IsCleared_example :
    IsCleared around read_file (classify_operation around read_file) permissions
unfolding check check_access check_bash_protocol check_access_policy classify_operation decide
    decide_read_only create_decision contains text_eq match_rule
check-IsCleared_example = check-IsCleared around read_file permissions refl

check-deny_scope_example :
    (check around read_file
      (deny_scope (codes "read_file") (codes "read:a") permissions)).0.behavior
    ≡ PermissionBehavior.deny
unfolding classify_operation
check-deny_scope_example =
    check-deny_scope around read_file (codes "read:a") (codes "read_file") permissions refl refl

-- A policy over paths that resolve to themselves.
abbrev paths : PathLibrary
paths = record {
  normcase = λ path. path;
  relative_resolved_path = λ path. some path;
  resolve_prefix = λ prefix. prefix;
  mentions_prefix = λ command prefix. is_infix prefix command;
  reads_git_config = λ command. false;
}

-- A request of the scope "bash:b".
abbrev request : PermissionDecision
request = record {
  behavior = PermissionBehavior.ask;
  proposed_scope = some (codes "bash:b");
  described = false;
  operation = none;
  terminal_on_deny = false;
  decision_reason = some DecisionReason.bash_unknown;
}

-- The approval of "bash:a" lets it through.
resolve-allow_scope_example :
    resolve
      (codes "bash")
      (codes "n")
      request
      (allow_scope (codes "bash") (codes "bash:a") permissions)
    ≡ (
      decided PermissionBehavior.allow DecisionReason.approved_scope request,
      allow_scope (codes "bash") (codes "bash:a") permissions,
    )
unfolding decision_scope
resolve-allow_scope_example =
    resolve-allow_scope (codes "bash") (codes "bash:a") (codes "n") request permissions refl
      (λ e. absurd (ground arith))

resolve-allowed_example :
    (request.behavior ≡ PermissionBehavior.allow)
    ⊎ IsApproved (codes "bash") request permissions
    ⊎ ((permissions.prompt_policy_is_deny ≡ false)
        × ((contains (codes "y") once_answers || contains (codes "y") scope_answers) ≡ true))
unfolding resolve ask_user decided create_decision decision_scope contains text_eq match_rule
resolve-allowed_example = resolve-allowed (codes "bash") (codes "y") request permissions refl
