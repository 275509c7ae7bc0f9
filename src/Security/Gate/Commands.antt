-- ===== src/Security/Gate/Commands.antt =====
-- The gate over the classifier of commands (src/runtime/security/permission_gate.py and
-- src/runtime/security/risk_classifier.py).
use local_coding_agent_harne.Prelude.{◌≡◌, true, false, some, [], arith, Option-cases, inl, inr}
use local_coding_agent_harne.Security.Classification.{
  prefix_or, classify_bash_operation, bash_process, bash_write, bash_delete,
}
use local_coding_agent_harne.Security.Models.{
  OperationKind, kind_is, PermissionBehavior, BashRisk, risk_is, BashRiskDecision, Operation,
  create_decision, Permissions,
}
use local_coding_agent_harne.Security.Shell.Effects.{ShellLibrary}
use local_coding_agent_harne.Security.Risk.{Patterns, classify_bash}
use local_coding_agent_harne.Security.Risk.Recognized.{
  is_passive_risk, IsPassive, classify_bash-IsPassive,
}
use local_coding_agent_harne.Security.Gate.{
  Surroundings, ToolCall, allows_unknown_bash, check_access, decide_risk, classify_operation,
  check_operation, check,
}
use local_coding_agent_harne.Security.Gate.Accessible.{check_access-Restricts}
use local_coding_agent_harne.Security.Gate.Cleared.{check-IsCleared, is_blocked_risk}

-- The surroundings with the repository's own classifier.
unfoldable pub with_classifier : ShellLibrary → Patterns → Surroundings → Surroundings
with_classifier library patterns around = record around {
  classify_bash = classify_bash library patterns;
}

module _ (around : Surroundings) where
  unknown-asks :
      (tool : ToolCall) (operation : Operation) (bash : BashRiskDecision) (s : Permissions)
      → operation.bash_risk ≡ some bash
      → allows_unknown_bash s ≡ false
      → (check_operation around tool operation s).0.behavior ≡ PermissionBehavior.allow
      → risk_is bash.risk BashRisk.unknown ≡ false
  unfolding decide_risk create_decision
  unknown-asks tool operation bash s e u h =
      elim (Option-cases (check_access around tool operation s)) [
        | inl a ↦ ground arith
        | inr (d, a) ↦ absurd (check_access-Restricts around tool operation s d a (ground arith))
      ]

classified-risk :
    (operation : Operation) (decision : BashRiskDecision)
    → (classify_bash_operation operation decision).bash_risk ≡ some decision
unfolding classify_bash_operation bash_write bash_delete bash_process
classified-risk operation decision = ground arith

passive-rest :
    (bash : BashRiskDecision)
    → is_blocked_risk (some bash) ≡ false
    → risk_is bash.risk BashRisk.unknown ≡ false
    → is_passive_risk bash.risk ≡ true
passive-rest bash h k = ground arith

module _ (library : ShellLibrary) (patterns : Patterns) (around : Surroundings)
    (tool : ToolCall) where
  classified :
      kind_is tool.operation.kind OperationKind.process_exec ≡ true
      → tool.operation.is_bash ≡ true
      → (classify_operation (with_classifier library patterns around) tool).bash_risk
        ≡ some (classify_bash library patterns (prefix_or tool.operation.command []))
  unfolding classify_operation with_classifier
  classified k b =
      simp (k, b)
        (classified-risk tool.operation
          (classify_bash library patterns (prefix_or tool.operation.command [])))

-- Unless the sandbox lets unknown commands pass, a Bash call that the gate allows runs a command
-- whose every segment is a listed check or read-only command, and for which no rule for a
-- dangerous risk speaks; a rule that allows the call does not change this.
pub check-IsPassive :
    (library : ShellLibrary) (patterns : Patterns) (around : Surroundings) (tool : ToolCall)
    (s : Permissions)
    → kind_is tool.operation.kind OperationKind.process_exec ≡ true
    → tool.operation.is_bash ≡ true
    → allows_unknown_bash s ≡ false
    → (check (with_classifier library patterns around) tool s).0.behavior ≡ PermissionBehavior.allow
    → IsPassive library patterns (prefix_or tool.operation.command [])
unfolding check
check-IsPassive library patterns around tool s k b u h =
    let gate = with_classifier library patterns around in
    let operation = classify_operation gate tool in
    let command = prefix_or tool.operation.command [] in
    let bash = classify_bash library patterns command in
    let e = classified library patterns around tool k b in
    classify_bash-IsPassive library patterns command (
      passive-rest bash (rw e at (check-IsCleared gate tool s h).risk)
        (unknown-asks gate tool operation bash s e u h))
