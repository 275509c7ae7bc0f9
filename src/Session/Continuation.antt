-- ===== src/Session/Continuation.antt =====
-- src/runtime/session.py: the user's continuation of a waiting task; src/runtime/plan/resolution.py:
-- the response to a plan that consumes it.
use local_coding_agent_harne.Prelude.{
  ℕ, ◌+◌, ◌==◌, Bool, true, false, not, ◌&&◌, Option, none, some, List, [], ◌∷◌, ◌++◌, map, Text,
  codes, strip, contains, is_nil, leb, all_of, is_none, if◌then◌else◌, ok, err, pure, raise, ◌>>◌,
}
use local_coding_agent_harne.Task.{TaskStatus, status_is}
use local_coding_agent_harne.Plan.Models.{Env}
use local_coding_agent_harne.Plan.Controller.{PlanCall}
use local_coding_agent_harne.Session.{Session, SessionError, TraceEvent, Action}
use local_coding_agent_harne.Session.Tasks.{plan_call}

-- The truth of an optional text.
abbrev pub is_text : Option Text → Bool
is_text none = false
is_text (some t) = not (is_nil t)

unfoldable pub has_pending_user_continuation : Session → Bool
has_pending_user_continuation s =
    not (is_none s.pending_user_continuation_id) && is_text s.pending_user_continuation

abbrev pub with_continuation : Text → Session → Session
with_continuation text s = record s {
  user_continuation_sequence = s.user_continuation_sequence + 1;
  pending_user_continuation_id = some (s.user_continuation_sequence + 1);
  pending_user_continuation = some text;
  trace = s.trace ++ TraceEvent.user_continuation (s.user_continuation_sequence + 1) ∷ [];
}

-- The message that is added to the conversation is not modelled.
unfoldable pub add_user_continuation : Text → Action ℕ
add_user_continuation text s =
    if not (status_is s.task_status TaskStatus.waiting_user)
    then (err SessionError.not_waiting, s)
    else if has_pending_user_continuation s
    then (err SessionError.continuation_pending, s)
    else if is_nil (strip text)
    then (err SessionError.empty_continuation, s)
    else (ok (s.user_continuation_sequence + 1), with_continuation (strip text) s)

-- `continuation_id is not None and continuation_id != pending`
abbrev pub is_stale : Option ℕ → Option ℕ → Bool
is_stale none pending = false
is_stale (some a) none = true
is_stale (some a) (some b) = not (a == b)

abbrev pub consumed_event : Option ℕ → List TraceEvent
consumed_event none = []
consumed_event (some id) = TraceEvent.user_continuation_consumed id ∷ []

abbrev pub without_continuation : Session → Session
without_continuation s = record s {
  pending_user_continuation_id = none;
  pending_user_continuation = none;
  trace = s.trace ++ consumed_event s.pending_user_continuation_id;
}

unfoldable pub consume_user_continuation : Option ℕ → Action (Unit {0})
consume_user_continuation continuation_id s =
    if not (has_pending_user_continuation s)
    then (err SessionError.no_continuation, s)
    else if is_stale continuation_id s.pending_user_continuation_id
    then (err SessionError.stale_continuation, s)
    else (ok tt, without_continuation s)

-- EXACT_APPROVAL_RESPONSES
abbrev pub exact_approval_responses : List Text
exact_approval_responses = map codes ("同意" ∷ "同意执行" ∷ "批准" ∷ "批准执行" ∷ "approve" ∷ "approved" ∷ [])

abbrev pub is_ascii : Text → Bool
is_ascii = all_of (λ c. leb c 127)

-- `str.lower` of an ASCII character
abbrev pub lower_ascii : ℕ → ℕ
lower_ascii c = if leb 65 c && leb c 90 then c + 32 else c

unfoldable pub deterministic_plan_response : Text → Option Text
deterministic_plan_response text =
    let normalized = strip text in
    let lowered = if is_ascii normalized then map lower_ascii normalized else normalized in
    if contains lowered exact_approval_responses then some (codes "approve") else none

-- The action of a response; `other` is any unsupported one.
pub data PlanResponse : Type 0 where
  approve other : PlanResponse
  revise cancel : Option Text → PlanResponse

-- `text or default`
abbrev pub text_or : Option Text → Text → Text
text_or none default = default
text_or (some []) default = default
text_or (some (c ∷ t)) default = c ∷ t

abbrev pub current_continuation_id : Session → Option ℕ
current_continuation_id s =
    if has_pending_user_continuation s then s.pending_user_continuation_id else none

module _ (env : Env) where
  abbrev pub respond : PlanResponse → Action (Unit {0})
  respond PlanResponse.approve = plan_call env PlanCall.approve
  respond (PlanResponse.revise feedback) = plan_call env (PlanCall.revise (text_or feedback []))
  respond (PlanResponse.cancel reason) =
      plan_call env (PlanCall.cancel (some (text_or reason (codes "Cancelled by the user."))))
  respond PlanResponse.other = raise (SessionError.unsupported_response)

  abbrev pub consume_if_any : Option ℕ → Action (Unit {0})
  consume_if_any none = pure tt
  consume_if_any (some id) = consume_user_continuation (some id)

  abbrev pub resolved : PlanResponse → Option ℕ → Action (Option ℕ)
  resolved response id = respond response >> consume_if_any id >> pure id

  abbrev pub answer : PlanResponse → Bool → Option ℕ → Action (Option ℕ)
  answer response require_continuation id s =
      if require_continuation && is_none id
      then (err SessionError.no_fresh_continuation, s)
      else resolved response id s

  -- `require_continuation` asks for a pending continuation; the trace of the response is not
  -- modelled.
  unfoldable pub apply_plan_response : PlanResponse → Bool → Action (Option ℕ)
  apply_plan_response response require_continuation s =
      answer response require_continuation (current_continuation_id s) s
