-- ===== src/Execution/Safety.antt =====
-- When a tool runs, and what follows it (src/runtime/executor.py, src/tools/registry.py).
use local_coding_agent_harne.Prelude.{
  ◌++◌, codes, text_eq_iff, ◌≡◌, ◌≢◌, refl, Bool, true, false, Option, none, some, List, [], ◌∷◌,
  Text, Outcome, arith,
}
use local_coding_agent_harne.Execution.{
  ResultKind, failure, declared_unavailable, hidden_by_runtime_state, ToolResult, Blocked,
  blocked_result, Tool, Hooks, trigger, trigger_all, get, ToolResolution, resolve, execute,
  use_resolved, use_authorized, use_validated, use_tool, called, unknown, available,
}

module _ {W : Type 0} (hooks : Hooks W) where
  -- The state in which the tool is called: the hooks before it have let it through, and its own
  -- validation has accepted the arguments.
  pub data CallsIn (tool : Tool W) (w : W) : W → Type 0 where
    calls :
        {w₁ w₂ w₃ : W} {u : Unit {0}}
        → trigger hooks.pre_tool_validate w ≡ (none, w₁)
        → tool.validate w₁ ≡ (Outcome.ok u, w₂)
        → trigger hooks.pre_tool_use w₂ ≡ (none, w₃)
        → CallsIn tool w w₃

  -- A refusal by a gate, with its result: the tool is not called.
  pub data Refuses (tool : Tool W) (w : W) : ToolResult → W → Type 0 where
    unauthorized :
        {w₁ : W} (b : Blocked)
        → trigger hooks.pre_tool_validate w ≡ (some b, w₁)
        → Refuses tool w (blocked_result b) w₁
    invalid :
        {w₁ w₂ : W} (e : Text)
        → trigger hooks.pre_tool_validate w ≡ (none, w₁)
        → tool.validate w₁ ≡ (Outcome.err e, w₂)
        → Refuses tool w
            (failure ResultKind.validation_error (codes "Invalid tool arguments: " ++ e) e)
            w₂
    blocked :
        {w₁ w₂ w₃ : W} {u : Unit {0}} (b : Blocked)
        → trigger hooks.pre_tool_validate w ≡ (none, w₁)
        → tool.validate w₁ ≡ (Outcome.ok u, w₂)
        → trigger hooks.pre_tool_use w₂ ≡ (some b, w₃)
        → Refuses tool w (blocked_result b) w₃

  -- How a call ends. Whatever the end, the hooks after it run once, on its result.
  pub data Ends (resolution : ToolResolution W) (w : W) (out : ToolResult × W) : Type 0 where
    ran :
        (tool : Tool W) (w' : W)
        → resolution ≡ available tool
        → CallsIn tool w w'
        → out ≡ trigger_all hooks.post_tool_use (called (tool.call w').0) (tool.call w').1
        → Ends resolution w out
    refused :
        (tool : Tool W) {r : ToolResult} {w' : W}
        → resolution ≡ available tool
        → Refuses tool w r w'
        → out ≡ trigger_all hooks.post_tool_use r w'
        → Ends resolution w out
    unresolved :
        (r : ToolResult)
        → ((tool : Tool W) → resolution ≢ available tool)
        → r.ok ≡ false
        → out ≡ trigger_all hooks.post_tool_use r w
        → Ends resolution w out

  used-Ends :
      (tool : Tool W) (w : W) {w₁ w₂ : W} {u : Unit {0}} (r : Option Blocked) (w₃ : W)
      → trigger hooks.pre_tool_validate w ≡ (none, w₁)
      → tool.validate w₁ ≡ (Outcome.ok u, w₂)
      → trigger hooks.pre_tool_use w₂ ≡ (r, w₃)
      → Ends (available tool) w (use_tool hooks tool (r, w₃))
  used-Ends tool w (some b) w₃ p q e = refused tool refl (blocked b p q e) refl
  used-Ends tool w none w₃ p q e = ran tool w₃ refl (calls p q e) refl

  validated-Ends :
      (tool : Tool W) (w : W) {w₁ : W} (o : Outcome Text (Unit {0})) (w₂ : W)
      → trigger hooks.pre_tool_validate w ≡ (none, w₁)
      → tool.validate w₁ ≡ (o, w₂)
      → Ends (available tool) w (use_validated hooks tool (o, w₂))
  validated-Ends tool w (Outcome.err e) w₂ p q = refused tool refl (invalid e p q) refl
  validated-Ends tool w (Outcome.ok u) w₂ p q =
      used-Ends tool w (trigger hooks.pre_tool_use w₂).0 (trigger hooks.pre_tool_use w₂).1 p q refl

  authorized-Ends :
      (tool : Tool W) (w : W) (r : Option Blocked) (w₁ : W)
      → trigger hooks.pre_tool_validate w ≡ (r, w₁)
      → Ends (available tool) w (use_authorized hooks tool (r, w₁))
  authorized-Ends tool w (some b) w₁ p = refused tool refl (unauthorized b p) refl
  authorized-Ends tool w none w₁ p =
      validated-Ends tool w (tool.validate w₁).0 (tool.validate w₁).1 p refl

  resolved-Ends :
      (name : Text) (resolution : ToolResolution W) (w : W)
      → Ends resolution w (use_resolved hooks name resolution w)
  resolved-Ends name unknown w = unresolved _ (λ tool e. ground arith) refl refl
  resolved-Ends name (available tool) w =
      authorized-Ends tool w (trigger hooks.pre_tool_validate w).0
        (trigger hooks.pre_tool_validate w).1 refl
  resolved-Ends name (declared_unavailable tool) w = unresolved _ (λ t e. ground arith) refl refl
  resolved-Ends name (hidden_by_runtime_state tool) w = unresolved _ (λ t e. ground arith) refl refl

  -- Every call ends in one way: its tool is called in the state that the hooks before it and its
  -- validation left, once each of them has let it through; or a gate refuses it and the tool is
  -- not called; or its name resolves to no tool that is available. The hooks after the call run
  -- exactly once, on that result.
  pub execute-Ends :
      (visible : W → Text → Bool) (tools : List (Tool W)) (name : Text) (w : W)
      → Ends (resolve visible tools name w) w (execute hooks visible tools name w)
  unfolding execute
  execute-Ends visible tools name w = resolved-Ends name (resolve visible tools name w) w

get-name :
    {W : Type 0} (name : Text) (tools : List (Tool W)) {tool : Tool W}
    → get name tools ≡ some tool
    → tool.name ≡ name
unfolding get
get-name name [] h = ground arith
get-name name (t ∷ tools) {tool} h =
    ground (arith, get-name name tools {tool = tool}, text_eq_iff t.name name)

-- A tool that resolves as available is the registered tool of that name, it declares itself
-- available, and the session shows it.
pub resolve-available :
    {W : Type 0} (visible : W → Text → Bool) (tools : List (Tool W)) (name : Text) (w : W)
    (tool : Tool W)
    → resolve visible tools name w ≡ available tool
    → (get name tools ≡ some tool)
      × (tool.name ≡ name)
      × (tool.is_available w ≡ true)
      × (visible w tool.name ≡ true)
unfolding resolve
resolve-available visible tools name w tool h =
    let (found, declared, shown) : (get name tools ≡ some tool)
        × (tool.is_available w ≡ true)
        × (visible w tool.name ≡ true) =
      ground arith in
    (found, get-name name tools {tool = tool} found, declared, shown)
