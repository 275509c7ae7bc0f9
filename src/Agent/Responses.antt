-- ===== src/Agent/Responses.antt =====
-- src/agent/loop.py: what a response asks for, and which responses are refused while the user's answer
-- to a plan is pending.
use local_coding_agent_harne.Prelude.{
  ◌≡◌, Bool, true, false, not, ◌&&◌, ◌||◌, Option, none, some, List, [], ◌∷◌, is_nil, all_of, Text,
  codes, text_eq, contains, arith, if◌then◌else◌,
}

pub data ResponseAction : Type 0 where
  tools final protocol_error incomplete refusal : ResponseAction

abbrev pub action_is : ResponseAction → ResponseAction → Bool
action_is ResponseAction.tools ResponseAction.tools = true
action_is ResponseAction.final ResponseAction.final = true
action_is ResponseAction.protocol_error ResponseAction.protocol_error = true
action_is ResponseAction.incomplete ResponseAction.incomplete = true
action_is ResponseAction.refusal ResponseAction.refusal = true
action_is _ _ = false

-- Of a response, its stop reason and the names of the tools that it calls.
pub record ModelResponse : Type 0 where
  pub stop_reason : Option Text
  pub tool_calls : List Text

abbrev pub complete_stop_reasons : List Text
complete_stop_reasons = codes "end_turn" ∷ codes "stop_sequence" ∷ []

abbrev pub incomplete_stop_reasons : List Text
incomplete_stop_reasons = codes "max_tokens" ∷ codes "model_context_window_exceeded" ∷ []

abbrev pub action_of : Option Text → Bool → ResponseAction
action_of none has_tool_calls =
    if has_tool_calls then ResponseAction.tools else ResponseAction.final
action_of (some reason) has_tool_calls =
    if text_eq reason (codes "tool_use")
    then (if has_tool_calls then ResponseAction.tools else ResponseAction.protocol_error)
    else if contains reason complete_stop_reasons
    then (if has_tool_calls then ResponseAction.protocol_error else ResponseAction.final)
    else if contains reason incomplete_stop_reasons
    then ResponseAction.incomplete
    else if text_eq reason (codes "refusal")
    then ResponseAction.refusal
    else ResponseAction.protocol_error

-- `_response_action`
unfoldable pub response_action : ModelResponse → ResponseAction
response_action response = action_of response.stop_reason (not (is_nil response.tool_calls))

abbrev pub is_resolution : List Text → Bool
is_resolution (name ∷ []) = text_eq name (codes "resolve_plan_response")
is_resolution _ = false

-- `_plan_response_protocol_violation`; `pending` says that an answer to the plan is pending.
unfoldable pub plan_response_protocol_violation : Bool → ModelResponse → ResponseAction → Bool
plan_response_protocol_violation pending response action =
    if not pending || action_is action ResponseAction.final
    then false
    else if not (action_is action ResponseAction.tools)
    then action_is action ResponseAction.protocol_error
    else not (is_resolution response.tool_calls)

-- The loop runs the tools of the response, and not those of a response that violates the protocol.
unfoldable pub runs_tools : Bool → ModelResponse → Bool
runs_tools pending response =
    let action = response_action response in
    action_is action ResponseAction.tools
    && not (plan_response_protocol_violation pending response action)

-- `_should_retry_plan_response`, for the outcomes of the tools that ran
unfoldable pub should_retry_plan_response : Bool → List Bool → Bool
should_retry_plan_response pending outcomes =
    pending && not (is_nil outcomes) && all_of (λ (ok : Bool). not ok) outcomes

-- The tools of a response run exactly if it asks for tools and, while an answer of the user to the
-- plan is pending, its only call is one of the tool that resolves the answer.
pub runs_tools-resolution :
    (pending : Bool) (response : ModelResponse)
    → runs_tools pending response ≡ (
        action_is (response_action response) ResponseAction.tools
        && (not pending || is_resolution response.tool_calls))
unfolding runs_tools plan_response_protocol_violation
runs_tools-resolution pending response = ground arith
