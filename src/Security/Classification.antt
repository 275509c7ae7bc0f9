-- ===== src/Security/Classification.antt =====
-- src/runtime/security/permission_gate.py: the operation that a Bash command is classified as, and
-- the scope under which it is approved.
use local_coding_agent_harne.Prelude.{
  ℕ, ◌==◌, Bool, true, false, ◌&&◌, ◌||◌, Option, none, some, List, [], ◌∷◌, ◌++◌, map, reverse,
  Text, codes, leb, if◌then◌else◌,
}
use local_coding_agent_harne.Security.Models.{
  OperationKind, BashRisk, risk_is, BashRiskDecision, Operation,
}

-- The characters that a part of a scope keeps: letters, digits, and _ . -
abbrev pub is_scope_char : ℕ → Bool
is_scope_char c =
    (leb 97 c && leb c 122)
    || (leb 65 c && leb c 90)
    || (leb 48 c && leb c 57)
    || c == 95
    || c == 46
    || c == 45

-- Every run of other characters becomes one underscore; `inside` says that one was written.
unfoldable pub replace_runs : Bool → Text → Text
replace_runs inside [] = []
replace_runs inside (c ∷ t) =
    let kept = replace_runs false t in
    let skipped = replace_runs true t in
    if is_scope_char c then c ∷ kept else if inside then skipped else 95 ∷ skipped

unfoldable pub drop_underscores : Text → Text
drop_underscores [] = []
drop_underscores (c ∷ t) = let rest = drop_underscores t in if c == 95 then rest else c ∷ t

abbrev pub text_or : Text → Text → Text
text_or [] default = default
text_or (c ∷ t) default = c ∷ t

unfoldable pub normalize_part : Text → Text
normalize_part part =
    text_or (reverse (drop_underscores (reverse (drop_underscores (replace_runs false part)))))
      (codes "unknown")

unfoldable pub join_colons : List Text → Text
join_colons [] = []
join_colons (part ∷ []) = part
join_colons (part ∷ next ∷ parts) = part ++ codes ":" ++ join_colons (next ∷ parts)

-- The text of a risk.
abbrev pub risk_text : BashRisk → Text
risk_text BashRisk.safe_check = codes "safe_check"
risk_text BashRisk.read_only_command = codes "read_only_command"
risk_text BashRisk.file_write_via_bash = codes "file_write_via_bash"
risk_text BashRisk.file_delete_via_bash = codes "file_delete_via_bash"
risk_text BashRisk.destructive = codes "destructive"
risk_text BashRisk.network = codes "network"
risk_text BashRisk.unknown = codes "unknown"

abbrev pub prefix_or : Option Text → Text → Text
prefix_or none default = default
prefix_or (some prefix) default = text_or prefix default

abbrev pub first_or : List Text → Text → Text
first_or [] default = default
first_or (x ∷ xs) default = x

abbrev pub host_parts : BashRisk → List Text → List Text
host_parts risk hosts =
    if risk_is risk BashRisk.network then first_or hosts (codes "any-host") ∷ [] else []

abbrev pub target_parts : List Text → Bool → List Text
target_parts [] writes = if writes then codes "write-any-path" ∷ [] else []
target_parts (path ∷ paths) writes = path ∷ []

unfoldable pub bash_approval_scope : BashRisk → BashRiskDecision → Text
bash_approval_scope risk decision =
    codes "bash:"
    ++ join_colons (
        map normalize_part (
          (risk_text risk ∷ prefix_or decision.command_prefix (codes "unknown") ∷ [])
          ++ host_parts risk decision.network_hosts
          ++ target_parts decision.target_paths decision.writes_files))

-- `", ".join(paths)`
unfoldable pub join_commas : List Text → Text
join_commas [] = []
join_commas (path ∷ []) = path
join_commas (path ∷ next ∷ paths) = path ++ codes ", " ++ join_commas (next ∷ paths)

-- The subject and the scope of a write.
abbrev pub write_subject : Text → List Text → Text
write_subject subject [] = subject
write_subject subject (path ∷ paths) = join_commas (path ∷ paths)

abbrev pub write_scope : BashRiskDecision → List Text → Text
write_scope decision (path ∷ []) = codes "write:bash:" ++ path
write_scope decision _ = bash_approval_scope decision.risk decision

unfoldable pub bash_write : Operation → BashRiskDecision → Operation
bash_write operation decision = record {
  kind = OperationKind.fs_write;
  is_bash = true;
  subject = write_subject operation.subject decision.target_paths;
  paths = decision.target_paths;
  command = some (prefix_or operation.command []);
  scope_key = some (write_scope decision decision.target_paths);
  terminal_on_deny = false;
  is_read_only = false;
  is_destructive = false;
  is_sensitive = true;
  bash_risk = some decision;
}

unfoldable pub bash_delete : Operation → BashRiskDecision → Operation
bash_delete operation decision = record {
  kind = OperationKind.fs_delete;
  is_bash = true;
  subject = prefix_or decision.command_prefix operation.subject;
  paths = decision.target_paths;
  command = some (prefix_or operation.command []);
  scope_key = some (bash_approval_scope decision.risk decision);
  terminal_on_deny = false;
  is_read_only = false;
  is_destructive = false;
  is_sensitive = true;
  bash_risk = some decision;
}

unfoldable pub bash_process : Operation → BashRiskDecision → Operation
bash_process operation decision =
    let risk = decision.risk in
    record {
      kind = if decision.writes_files then OperationKind.fs_write else OperationKind.process_exec;
      is_bash = false;
      subject = prefix_or decision.command_prefix operation.subject;
      paths = decision.target_paths;
      command = some (prefix_or operation.command []);
      scope_key = some (bash_approval_scope risk decision);
      terminal_on_deny = risk_is risk BashRisk.destructive;
      is_read_only = risk_is risk BashRisk.read_only_command;
      is_destructive = risk_is risk BashRisk.destructive;
      is_sensitive =
          risk_is risk BashRisk.network
          || risk_is risk BashRisk.unknown
          || risk_is risk BashRisk.destructive;
      bash_risk = some decision;
    }

unfoldable pub classify_bash_operation : Operation → BashRiskDecision → Operation
classify_bash_operation operation decision =
    if risk_is decision.risk BashRisk.file_write_via_bash
    then bash_write operation decision
    else if risk_is decision.risk BashRisk.file_delete_via_bash
    then bash_delete operation decision
    else bash_process operation decision
