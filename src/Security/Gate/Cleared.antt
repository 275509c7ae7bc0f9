-- ===== src/Security/Gate/Cleared.antt =====
-- The checks of the gate behind its decisions (src/runtime/security/permission_gate.py).
use local_coding_agent_harne.Prelude.{
  ◌≡◌, ◌≢◌, ◌⊎◌, refl, ap, Bool, true, false, not, ◌&&◌, ◌||◌, all_of, contains, Option, none, some,
  Text, is_nil, text_eq_refl, arith, Option-cases, inl, inr,
}
use local_coding_agent_harne.Security.Models.{
  OperationKind, kind_is, PermissionMode, mode_is, PermissionBehavior, BashRisk, risk_is,
  BashRiskDecision, Operation, PermissionDecision, create_decision, Permissions,
}
use local_coding_agent_harne.Security.Approval.{deny_scope}
use local_coding_agent_harne.Security.Gate.Accessible.{
  is_kept, IsAccessible, Restricts, check_access-Restricts, check_access-IsAccessible,
}
use local_coding_agent_harne.Session.Files.Views.{contains-add}
use local_coding_agent_harne.Security.Gate.{
  Surroundings, ToolCall, all_paths_created, ◌<|>◌, is_mutation, check_bash_protocol,
  classify_operation, check_access, check_bash_operation, decide_risk, check_tool, with_operation,
  decide, decide_accept_edits, decide_read_only, decide_manual_approval, check_operation, check,
  or_asks,
}

-- The risks that no mode or rule allows.
abbrev pub is_blocked_risk : Option BashRiskDecision → Bool
is_blocked_risk none = false
is_blocked_risk (some bash) =
    risk_is bash.risk BashRisk.destructive
    || risk_is bash.risk BashRisk.file_delete_via_bash
    || risk_is bash.risk BashRisk.file_write_via_bash
    || risk_is bash.risk BashRisk.network

-- The kinds for which a mode asks whatever the paths are.
abbrev pub mode_asks : PermissionMode → OperationKind → Bool
mode_asks PermissionMode.accept_edits kind = false
mode_asks PermissionMode.read_only kind = is_mutation kind
mode_asks PermissionMode.manual_approval kind =
    is_mutation kind || kind_is kind OperationKind.process_exec

pub record IsCleared (around : Surroundings) (tool : ToolCall) (operation : Operation)
    (s : Permissions) : Type 0 where
  pub accessible : IsAccessible around tool operation s
  pub risk : is_blocked_risk operation.bash_risk ≡ false
  pub mode : mode_asks s.permission_mode operation.kind ≡ false
  -- Under `accept_edits` an operation that deletes, and does not only read, is for files that the
  -- task has created, unless the check of Bash operations has allowed it.
  pub cleanup :
      (check_bash_operation operation s ≢ none)
      ⊎ ((not (mode_is s.permission_mode PermissionMode.accept_edits)
            || not (kind_is operation.kind OperationKind.fs_delete)
            || operation.is_read_only
            || (not (is_nil operation.paths)
                && all_of
                    (is_kept around
                      (λ target. contains (around.relative_path target) s.task_created_files))
                    operation.paths))
          ≡ true)
  pub tool_agrees : (check_bash_operation operation s ≢ none) ⊎ (check_tool tool operation ≡ none)

module _ (around : Surroundings) where
  decide-asks :
      (tool : ToolCall) (operation : Operation) (s : Permissions)
      → (or_asks around (decide around tool operation s) operation).behavior
        ≡ PermissionBehavior.allow
      → mode_asks s.permission_mode operation.kind ≡ false
  unfolding decide decide_accept_edits decide_read_only decide_manual_approval create_decision
  decide-asks tool operation s h = ground arith

  -- An operation that deletes is allowed under `accept_edits` for files of the task only.
  decide-cleanup :
      (tool : ToolCall) (operation : Operation) (s : Permissions)
      → (or_asks around (decide around tool operation s) operation).behavior
        ≡ PermissionBehavior.allow
      → (not (mode_is s.permission_mode PermissionMode.accept_edits)
          || not (kind_is operation.kind OperationKind.fs_delete)
          || operation.is_read_only
          || (not (is_nil operation.paths)
              && all_of
                  (is_kept around
                    (λ target. contains (around.relative_path target) s.task_created_files))
                  operation.paths))
        ≡ true
  unfolding decide decide_accept_edits create_decision all_paths_created
  decide-cleanup tool operation s h = ground arith

  check_tool-Restricts :
      (tool : ToolCall) (operation : Operation) → Restricts (check_tool tool operation)
  unfolding with_operation
  check_tool-Restricts tool operation decision e = ground arith

  -- A command that the check of Bash operations allows runs under a mode that accepts edits.
  bash-mode :
      (operation : Operation) (s : Permissions) (decision : PermissionDecision)
      → check_bash_operation operation s ≡ some decision
      → decision.behavior ≡ PermissionBehavior.allow
      → (s.permission_mode ≡ PermissionMode.accept_edits)
        × (is_blocked_risk operation.bash_risk ≡ false)
  unfolding decide_risk create_decision
  bash-mode operation s decision e h = ground arith

  bash-passed :
      (operation : Operation) (s : Permissions)
      → check_bash_operation operation s ≡ none
      → is_blocked_risk operation.bash_risk ≡ false
  unfolding decide_risk
  bash-passed operation s e = ground arith

  -- Which of the three sources an allowing decision comes from.
  abbrev Allows : Option PermissionDecision → Type 0
  Allows d =
      (decision : PermissionDecision) × (d ≡ some decision)
      × (decision.behavior ≡ PermissionBehavior.allow)

  allowing-source :
      (x y z : Option PermissionDecision) (operation : Operation)
      → (or_asks around (x <|> y <|> z) operation).behavior ≡ PermissionBehavior.allow
      → Allows x
        ⊎ ((x ≡ none) × Allows y)
        ⊎ ((x ≡ none)
            × (y ≡ none)
            × ((or_asks around z operation).behavior ≡ PermissionBehavior.allow))
  allowing-source (some d) y z operation h = inl (d, refl, h)
  allowing-source none (some d) z operation h = inr (inl (refl, (d, refl, h)))
  allowing-source none none z operation h = inr (inr (refl, refl, h))

  operation-IsCleared :
      (tool : ToolCall) (operation : Operation) (s : Permissions)
      → IsAccessible around tool operation s
      → (or_asks around
          (check_bash_operation operation s
            <|> check_tool tool operation
            <|> decide around tool operation s)
          operation).behavior
        ≡ PermissionBehavior.allow
      → IsCleared around tool operation s
  operation-IsCleared tool operation s a h =
      elim (allowing-source (check_bash_operation operation s) (check_tool tool operation)
        (decide around tool operation s) operation h) [
          | inl (d, e, allowed) ↦
              let (mode, risk) = bash-mode operation s d e allowed in
              record {
                accessible = a;
                risk = risk;
                mode = ap (λ m. mode_asks m operation.kind) mode;
                cleanup = inl (λ n. absurd (ground arith));
                tool_agrees = inl (λ n. absurd (ground arith));
              }
          | inr (inl (n, (d, e, allowed))) ↦
              absurd (check_tool-Restricts tool operation d e allowed)
          | inr (inr (n, agreed, decided)) ↦ record {
            accessible = a;
            risk = bash-passed operation s n;
            mode = decide-asks tool operation s decided;
            cleanup = inr (decide-cleanup tool operation s decided);
            tool_agrees = inr agreed;
          }
        ]

  check_operation-IsCleared :
      (tool : ToolCall) (operation : Operation) (s : Permissions)
      → (check_operation around tool operation s).0.behavior ≡ PermissionBehavior.allow
      → IsCleared around tool operation s
  check_operation-IsCleared tool operation s h =
      elim (Option-cases (check_access around tool operation s)) [
        | inl e ↦
            operation-IsCleared tool operation s
              (check_access-IsAccessible around tool operation s e) (ground arith)
        | inr (d, e) ↦ absurd (check_access-Restricts around tool operation s d e (ground arith))
      ]

  -- A call that the gate allows has passed every check. Its paths resolve in the work directory, at
  -- targets that are not protected from reads if it reads, and not from writes if it writes or
  -- deletes; its command has no references to paths protected from reads nor, if it writes or
  -- deletes, to those protected from writes. Its scope has not been denied, and no rule denies it
  -- or asks for it. Its command is not destructive, a deletion, a write or a use of the network.
  -- Its mode does not ask for operations of its kind; where edits are accepted, a deletion that is
  -- not marked as only reading is of files that the task has created, unless the check of Bash
  -- operations has allowed it. A tool that restricts it has been overruled only by that check.
  pub check-IsCleared :
      (tool : ToolCall) (s : Permissions)
      → (check around tool s).0.behavior ≡ PermissionBehavior.allow
      → IsCleared around tool (classify_operation around tool) s
  unfolding check
  check-IsCleared tool s h = check_operation-IsCleared tool (classify_operation around tool) s h

  -- Once an operation's scope has been denied for the session, the gate denies every call of that
  -- scope, in every mode and under every rule.
  pub check-deny_scope :
      (tool : ToolCall) (scope denied_tool : Text) (s : Permissions)
      → (classify_operation around tool).scope_key ≡ some scope
      → is_nil scope ≡ false
      → (check around tool (deny_scope denied_tool scope s)).0.behavior ≡ PermissionBehavior.deny
  unfolding check check_access deny_scope create_decision check_bash_protocol
  check-deny_scope tool scope denied_tool s h n =
      ground (arith, contains-add scope scope s.denied_permission_scopes, text_eq_refl scope)
