-- ===== src/Agent/Recovery.antt =====
-- src/agent/loop.py: the bounded recovery from a context that is too large.
use local_coding_agent_harne.Prelude.{
  ℕ, ◌+◌, ◌≤◌, ◌<◌, ◌≡◌, ◌⊎◌, refl, ap, Bool, true, false, ◌&&◌, leb, ltb, List, arith, Bool-cases,
  inl, inr, if◌then◌else◌,
}
use local_coding_agent_harne.Context.Messages.{Message}
use local_coding_agent_harne.Context.Candidate.{
  ContextState, CheckpointBuilder, Settings, request_tokens,
}
use local_coding_agent_harne.Context.Manager.{CallReason, ContextPreparation, prepare_context}
use local_coding_agent_harne.Context.Manager.Prepared.{prepare_context-IsRebased}

-- The context with the attempts that have been made.
pub record Recovering (Sources : Type 0) : Type 0 where
  pub context : ContextState Sources
  pub context_recovery_attempts : ℕ

module _ {Sources : Type 0} (builder : CheckpointBuilder Sources) (settings : Settings)
    (project : List Message → Sources → Sources) where
  -- `_attempt_context_overflow_recovery`
  unfoldable pub attempt_context_overflow_recovery :
      ℕ → Recovering Sources → Bool × Recovering Sources
  attempt_context_overflow_recovery max_attempts r =
      let (preparation, after) =
        prepare_context builder settings project true CallReason.overflow (r.context) in
      if leb max_attempts (r.context_recovery_attempts) then (false, r) else (
        preparation.compacted && ltb 0 preparation.saved_tokens,
        record { context = after; context_recovery_attempts = r.context_recovery_attempts + 1 },
      )

  -- The attempt has made the request smaller.
  pub record IsRecovered (max_attempts : ℕ) (r after : Recovering Sources) : Type 0 where
    pub counted : after.context_recovery_attempts ≡ r.context_recovery_attempts + 1
    pub bounded : after.context_recovery_attempts ≤ max_attempts
    pub smaller :
        request_tokens builder settings (after.context.messages)
        < request_tokens builder settings (r.context.messages)

  recovers :
      {small large : ℕ} (preparation : ContextPreparation)
      → preparation.compacted ≡ true
      → small < large
      → preparation.saved_tokens + small ≡ large
      → (preparation.compacted && ltb 0 preparation.saved_tokens) ≡ true
  recovers preparation c s e = ground arith

  -- No attempt is made beyond the limit. An attempt that is reported as a recovery has made the
  -- request strictly smaller; any other leaves the messages as they are.
  pub attempt_context_overflow_recovery-IsRecovered :
      (max_attempts : ℕ) (r : Recovering Sources)
      → let (recovered, after) = attempt_context_overflow_recovery max_attempts r in
        ((recovered ≡ true) × IsRecovered max_attempts r after)
        ⊎ ((recovered ≡ false) × (after.context.messages ≡ r.context.messages))
  unfolding attempt_context_overflow_recovery
  attempt_context_overflow_recovery-IsRecovered max_attempts r =
      let (preparation, prepared) =
        prepare_context builder settings project true CallReason.overflow (r.context) in
      elim (Bool-cases (leb max_attempts (r.context_recovery_attempts))) [
        | inl e ↦ simp e (inr (refl, refl))
        | inr n ↦
            elim (prepare_context-IsRebased builder settings project true CallReason.overflow
              (r.context)) [
                | inl b ↦ simp n (
                    inl (
                      recovers preparation b.compacted b.smaller b.saved,
                      record { counted = refl; bounded = ground arith; smaller = b.smaller },
                    ))
                | inr u ↦
                    simp n
                      (inr (ap (λ c. c && ltb 0 preparation.saved_tokens) (u.kept), u.messages))
              ]
      ]
