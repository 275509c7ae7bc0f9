-- ===== src/Security/Gate/Accessible.antt =====
-- The checks of the gate that come before its modes (src/runtime/security/permission_gate.py).
use local_coding_agent_harne.Prelude.{
  ◌≡◌, ◌≢◌, refl, Bool, true, false, not, ◌&&◌, ◌||◌, List, [], ◌∷◌, all_of, Option, none, some,
  Text, any_of, is_nil, arith,
}
use local_coding_agent_harne.Security.Rules.{RuleBehavior}
use local_coding_agent_harne.Security.Models.{
  OperationKind, kind_is, PermissionBehavior, Operation, PermissionDecision, create_decision,
  Permissions,
}
use local_coding_agent_harne.Security.Gate.{
  Surroundings, ToolCall, resolved_is, references, ◌<|>◌, when, is_mutation, is_safe,
  is_denied_scope, has_match, check_bash_protocol, check_access_policy, check_access,
}

-- The paths that resolve in the work directory and pass a test there.
abbrev pub is_kept : Surroundings → (Text → Bool) → Text → Bool
is_kept around test path = elim (around.safe_path path) [ none ↦ false | some target ↦ test target ]

-- The command, if there is one, has no references of a kind.
abbrev pub is_unreferenced : (Text → List Text) → Option Text → Bool
is_unreferenced find none = true
is_unreferenced find (some command) = is_nil command || is_nil (find command)

-- No check of `check_access` has spoken.
pub record IsAccessible (around : Surroundings) (tool : ToolCall) (operation : Operation)
    (s : Permissions) : Type 0 where
  pub protocol : check_bash_protocol operation tool.verifies ≡ none
  pub safe : any_of (λ path. not (is_safe around path)) operation.paths ≡ false
  pub undenied : is_denied_scope operation s ≡ false
  pub policy : check_access_policy around operation ≡ none
  pub reads :
      (not (kind_is operation.kind OperationKind.fs_read)
        || all_of
            (is_kept around (λ target. not (around.is_protected_resolved_read target)))
            operation.paths)
      ≡ true
  pub writes :
      (not (is_mutation operation.kind)
        || all_of
            (is_kept around (λ target. not (around.is_protected_resolved_write target)))
            operation.paths)
      ≡ true
  pub read_command : is_unreferenced around.protected_read_references operation.command ≡ true
  pub write_command :
      (not (is_mutation operation.kind)
        || is_unreferenced around.protected_write_references operation.command)
      ≡ true
  pub deny_rule : has_match RuleBehavior.deny tool operation s ≡ false
  pub ask_rule : has_match RuleBehavior.ask tool operation s ≡ false

is_kept-all_of :
    (around : Surroundings) (test : Text → Bool) (paths : List Text)
    → any_of (λ path. not (is_safe around path)) paths ≡ false
    → any_of (resolved_is around test) paths ≡ false
    → all_of (is_kept around (λ target. not (test target))) paths ≡ true
is_kept-all_of around test [] s h = refl
is_kept-all_of around test (path ∷ paths) s h = ground (arith, is_kept-all_of around test paths)

references-is_unreferenced :
    (around : Surroundings) (find : Text → List Text) (command : Option Text)
    → references around find command ≡ false
    → is_unreferenced find command ≡ true
references-is_unreferenced around find none h = refl
references-is_unreferenced around find (some command) h = ground arith

pub when_then : (a b c : Bool) → (b ≡ false → c ≡ true) → (a && b) ≡ false → (not a || c) ≡ true
when_then false b c f h = ground arith
when_then true b c f h = f h

pub check_access_policy-none :
    (around : Surroundings) (operation : Operation)
    → check_access_policy around operation ≡ none
    → ((is_mutation operation.kind
          && references around around.protected_write_references operation.command)
        ≡ false)
      × (references around around.protected_read_references operation.command ≡ false)
      × ((kind_is operation.kind OperationKind.fs_read
            && any_of (resolved_is around around.is_protected_resolved_read) operation.paths)
          ≡ false)
      × ((is_mutation operation.kind
            && any_of (resolved_is around around.is_protected_resolved_write) operation.paths)
          ≡ false)
unfolding check_access_policy
check_access_policy-none around operation h =
    (ground arith, ground arith, ground arith, ground arith)

abbrev pub Restricts : Option PermissionDecision → Type 0
Restricts d =
    (decision : PermissionDecision)
    → d ≡ some decision
    → decision.behavior ≢ PermissionBehavior.allow

<|>-Restricts : (d e : Option PermissionDecision) → Restricts d → Restricts e → Restricts (d <|> e)
<|>-Restricts none e h k = k
<|>-Restricts (some d) e h k = h

when-Restricts :
    (b : Bool) (d : PermissionDecision)
    → d.behavior ≢ PermissionBehavior.allow
    → Restricts (when b d)
when-Restricts b d h decision e = ground arith

<|>-none : (d e : Option PermissionDecision) → (d <|> e) ≡ none → (d ≡ none) × (e ≡ none)
<|>-none none e h = (refl, h)
<|>-none (some d) e h = ground arith

when-none : (b : Bool) (d : PermissionDecision) → when b d ≡ none → b ≡ false
when-none b d h = ground arith

check_bash_protocol-Restricts :
    (operation : Operation) (verifies : Bool) → Restricts (check_bash_protocol operation verifies)
unfolding check_bash_protocol create_decision
check_bash_protocol-Restricts operation verifies decision e = ground arith

module _ (around : Surroundings) where
  check_access_policy-Restricts :
      (operation : Operation) → Restricts (check_access_policy around operation)
  unfolding check_access_policy create_decision
  check_access_policy-Restricts operation decision e = ground arith

  pub check_access-Restricts :
      (tool : ToolCall) (operation : Operation) (s : Permissions)
      → Restricts (check_access around tool operation s)
  unfolding check_access create_decision
  check_access-Restricts tool operation s decision e =
      let p = check_bash_protocol-Restricts operation tool.verifies in
      let q = check_access_policy-Restricts operation in grind (arith, p, q)

  pub check_access-IsAccessible :
      (tool : ToolCall) (operation : Operation) (s : Permissions)
      → check_access around tool operation s ≡ none
      → IsAccessible around tool operation s
  unfolding check_access
  check_access-IsAccessible tool operation s h =
      let safe : any_of (λ path. not (is_safe around path)) operation.paths ≡ false =
        ground arith in
      let policy : check_access_policy around operation ≡ none = ground arith in
      let (write, read, reads, writes) = check_access_policy-none around operation policy in
      record {
        protocol = ground arith;
        safe = safe;
        undenied = ground arith;
        policy = policy;
        reads = when_then _ _ _ (is_kept-all_of around _ operation.paths safe) reads;
        writes = when_then _ _ _ (is_kept-all_of around _ operation.paths safe) writes;
        read_command = references-is_unreferenced around _ operation.command read;
        write_command =
            when_then _ _ _ (references-is_unreferenced around _ operation.command) write;
        deny_rule = ground arith;
        ask_rule = ground arith;
      }
