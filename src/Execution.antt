-- ===== src/Execution.antt =====
-- src/runtime/executor.py, src/runtime/hooks/manager.py and src/tools/registry.py: one tool call,
-- from its name to its result. The session is a type `W` that tools and hooks change.
pub mod Output
pub mod Large
pub mod Tracking
pub mod Safety
pub mod Progress
use local_coding_agent_harne.Prelude.{
  Bool, true, false, not, ◌&&◌, ◌||◌, Option, none, some, List, [], ◌∷◌, ◌++◌, Text, codes, text_eq,
  if◌then◌else◌, Outcome, ok, err,
}

-- Of the metadata, the keys that say what became of the call.
pub data ResultKind : Type 0 where
  returned unknown_tool unavailable_tool validation_error tool_exception blocked_by_hook
        model_contract_violation :
      ResultKind

pub record ToolResult : Type 0 where
  pub ok : Bool
  pub content : Text
  pub error : Option Text
  pub kind : ResultKind

abbrev pub failure : ResultKind → Text → Text → ToolResult
failure kind content error = record {
  ok = false;
  content = content;
  error = some error;
  kind = kind;
}

-- What a hook that blocks gives back: a result, or another value with its text.
pub data Blocked : Type 0 where
  result : ToolResult → Blocked
  value : Text → Blocked

-- `_blocked_result`
unfoldable pub blocked_result : Blocked → ToolResult
blocked_result (Blocked.result r) = r
blocked_result (Blocked.value reason) = failure ResultKind.blocked_by_hook reason reason

-- A tool, applied to the arguments of one call; `validate` and `call` may raise a text.
pub record Tool (W : Type 0) : Type 0 where
  pub name : Text
  pub is_available : W → Bool
  pub validate : W → Outcome Text (Unit {0}) × W
  pub call : W → Outcome Text ToolResult × W

pub record Hooks (W : Type 0) : Type 0 where
  pub pre_tool_validate : List (W → Option Blocked × W)
  pub pre_tool_use : List (W → Option Blocked × W)
  pub post_tool_use : List (ToolResult → W → ToolResult × W)

pub data ToolResolution (W : Type 0) : Type 0 where
  unknown : ToolResolution W
  declared_unavailable hidden_by_runtime_state available : Tool W → ToolResolution W

-- The result of a call that returned or raised.
unfoldable pub called : Outcome Text ToolResult → ToolResult
called (Outcome.ok r) = r
called (Outcome.err e) = failure ResultKind.tool_exception (codes "Tool error: " ++ e) e

module _ {W : Type 0} where
  abbrev pub or_continue : Option Blocked → (W → Option Blocked × W) → W → Option Blocked × W
  or_continue (some b) rest w = (some b, w)
  or_continue none rest w = rest w

  -- `trigger`: the first value that is not None, and no hook after it.
  unfoldable pub trigger : List (W → Option Blocked × W) → W → Option Blocked × W
  trigger [] w = (none, w)
  trigger (hook ∷ hooks) w = let (r, w') = hook w in or_continue r (trigger hooks) w'

  -- `trigger_all`: every hook, each changing the result in place.
  unfoldable pub trigger_all :
      List (ToolResult → W → ToolResult × W) → ToolResult → W → ToolResult × W
  trigger_all [] r w = (r, w)
  trigger_all (hook ∷ hooks) r w = let (r', w') = hook r w in trigger_all hooks r' w'

  -- The tools in the order of their registration; `register` raises on a name that is taken.
  unfoldable pub get : Text → List (Tool W) → Option (Tool W)
  get name [] = none
  get name (tool ∷ tools) = if text_eq tool.name name then some tool else get name tools

  unfoldable pub register : Tool W → List (Tool W) → Option (List (Tool W))
  register tool tools = elim (get tool.name tools) [
    | some t ↦ none
    | none ↦ some (tools ++ tool ∷ [])
  ]

  -- `visible` is the session's `is_tool_visible`.
  abbrev pub resolve_tool : (W → Text → Bool) → W → Option (Tool W) → ToolResolution W
  resolve_tool visible w none = unknown
  resolve_tool visible w (some tool) =
      if not (tool.is_available w)
      then declared_unavailable tool
      else if not (visible w tool.name)
      then hidden_by_runtime_state tool
      else available tool

  unfoldable pub resolve : (W → Text → Bool) → List (Tool W) → Text → W → ToolResolution W
  resolve visible tools name w = resolve_tool visible w (get name tools)

  module _ (hooks : Hooks W) where
    abbrev pub post : ToolResult × W → ToolResult × W
    post (r, w) = trigger_all hooks.post_tool_use r w

    abbrev pub use_tool : Tool W → Option Blocked × W → ToolResult × W
    use_tool tool (some b, w) = post (blocked_result b, w)
    use_tool tool (none, w) = let (o, w') = tool.call w in post (called o, w')

    abbrev pub use_validated : Tool W → Outcome Text (Unit {0}) × W → ToolResult × W
    use_validated tool (Outcome.err e, w) =
        post (failure ResultKind.validation_error (codes "Invalid tool arguments: " ++ e) e, w)
    use_validated tool (Outcome.ok u, w) = use_tool tool (trigger hooks.pre_tool_use w)

    abbrev pub use_authorized : Tool W → Option Blocked × W → ToolResult × W
    use_authorized tool (some b, w) = post (blocked_result b, w)
    use_authorized tool (none, w) = use_validated tool (tool.validate w)

    abbrev pub use_resolved : Text → ToolResolution W → W → ToolResult × W
    use_resolved name unknown w =
        let message = codes "Unknown tool: " ++ name in
        post (failure ResultKind.unknown_tool message message, w)
    use_resolved name (available tool) w = use_authorized tool (trigger hooks.pre_tool_validate w)
    use_resolved name _ w =
        let message = codes "Tool is unavailable in the current runtime state: " ++ name in
        post (failure ResultKind.unavailable_tool message message, w)

    unfoldable pub execute : (W → Text → Bool) → List (Tool W) → Text → W → ToolResult × W
    execute visible tools name w = use_resolved name (resolve visible tools name w) w
