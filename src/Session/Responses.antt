-- ===== src/Session/Responses.antt =====
-- The life of a user's continuation: src/runtime/plan/resolution.py.
use local_coding_agent_harne.Prelude.{
  subst, [], codes, ℕ, ◌≡◌, refl, sym, ap, ◌∙◌, Bool, true, false, Option, some, Outcome, ok, err,
  arith, Outcome-cases, inl, inr,
}
use local_coding_agent_harne.Plan.Models.{Env}
use local_coding_agent_harne.Plan.Controller.{PlanCall}
use local_coding_agent_harne.Session.{Session, SessionError}
use local_coding_agent_harne.Session.Frame.{Keeps, plan_call-Keeps, frame}
use local_coding_agent_harne.Session.Continuation.{
  has_pending_user_continuation, consume_user_continuation, PlanResponse, text_or, respond, answer,
  current_continuation_id, apply_plan_response, without_continuation, resolved,
}

respond-Keeps : (env : Env) (response : PlanResponse) → Keeps (respond env response)
respond-Keeps env PlanResponse.approve = plan_call-Keeps env PlanCall.approve
respond-Keeps env (PlanResponse.revise feedback) =
    plan_call-Keeps env (PlanCall.revise (text_or feedback []))
respond-Keeps env (PlanResponse.cancel reason) =
    plan_call-Keeps env (PlanCall.cancel (some (text_or reason (codes "Cancelled by the user."))))
respond-Keeps env PlanResponse.other = unfold Keeps in λ s. refl

-- What a response leaves of the continuation `id`: consumed if it returns, else kept as it was.
pub data Answered (s : Session) (id : ℕ) : Outcome SessionError (Option ℕ) → Session → Type 0 where
  consumed :
      {s' : Session} → has_pending_user_continuation s' ≡ false → Answered s id (ok (some id)) s'
  kept :
      {s' : Session} {e : SessionError}
      → s'.pending_user_continuation_id ≡ s.pending_user_continuation_id
      → s'.pending_user_continuation ≡ s.pending_user_continuation
      → Answered s id (err e) s'

pending-frame :
    (s s' : Session)
    → frame s' ≡ frame s
    → has_pending_user_continuation s' ≡ has_pending_user_continuation s
unfolding has_pending_user_continuation
pending-frame s s' h =
    ap
      (λ f. has_pending_user_continuation (record s {
        pending_user_continuation_id = f.pending_id;
        pending_user_continuation = f.pending;
      }))
      h

consume_user_continuation-pending :
    (s : Session) (id : ℕ)
    → has_pending_user_continuation s ≡ true
    → s.pending_user_continuation_id ≡ some id
    → consume_user_continuation (some id) s ≡ (ok tt, without_continuation s)
unfolding consume_user_continuation
consume_user_continuation-pending s id p q = ground arith

without_continuation-none :
    (s : Session) → has_pending_user_continuation (without_continuation s) ≡ false
unfolding has_pending_user_continuation
without_continuation-none s = refl

resolved-Answered :
    (env : Env) (response : PlanResponse) (s : Session) (id : ℕ)
    → has_pending_user_continuation s ≡ true
    → s.pending_user_continuation_id ≡ some id
    → Answered s id (resolved env response (some id) s).0 (resolved env response (some id) s).1
unfolding Keeps
resolved-Answered env response s id p q =
    let s' = (respond env response s).1 in
    let same = respond-Keeps env response s in
    elim (Outcome-cases (respond env response s).0) [
      | inl (u, h) ↦
          rw
            (
              h,
              consume_user_continuation-pending s' id (pending-frame s s' same ∙ p)
                  (ap (λ f. f.pending_id) same ∙ q),
            )
            (consumed (without_continuation-none s'))
      | inr (e, h) ↦ rw h (kept (ap (λ f. f.pending_id) same) (ap (λ f. f.pending) same))
    ]

current-some :
    (s : Session) (id : ℕ)
    → has_pending_user_continuation s ≡ true
    → s.pending_user_continuation_id ≡ some id
    → current_continuation_id s ≡ some id
current-some s id p q = ground arith

answer-Answered :
    (env : Env) (response : PlanResponse) (b : Bool) (s : Session) (id : ℕ)
    → has_pending_user_continuation s ≡ true
    → s.pending_user_continuation_id ≡ some id
    → Answered s id (answer env response b (some id) s).0 (answer env response b (some id) s).1
answer-Answered env response true s id p q = resolved-Answered env response s id p q
answer-Answered env response false s id p q = resolved-Answered env response s id p q

-- A response that returns consumes the pending continuation, and gives back its number; one that
-- raises leaves the continuation pending.
pub apply_plan_response-Answered :
    (env : Env) (response : PlanResponse) (require_continuation : Bool) (s : Session) (id : ℕ)
    → has_pending_user_continuation s ≡ true
    → s.pending_user_continuation_id ≡ some id
    → Answered s id
        (apply_plan_response env response require_continuation s).0
        (apply_plan_response env response require_continuation s).1
unfolding apply_plan_response
apply_plan_response-Answered env response b s id p q =
    subst (λ i. Answered s id (answer env response b i s).0 (answer env response b i s).1)
      (sym (current-some s id p q)) (answer-Answered env response b s id p q)
