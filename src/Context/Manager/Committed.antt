-- ===== src/Context/Manager/Committed.antt =====
-- What a rebase commits (src/runtime/context/manager.py).
use local_coding_agent_harne.Prelude.{
  ℕ, ◌+◌, ◌≤◌, ◌<◌, ◌≡◌, Bool, true, false, Text, Outcome, ok, err, arith, Option-cases, inl, inr,
}
use local_coding_agent_harne.Context.Budget.{estimate_text_tokens}
use local_coding_agent_harne.Context.Rounds.{messages_of, select_final_raw, protocol_is_complete}
use local_coding_agent_harne.Context.Candidate.{
  ContextState, RebaseFailure, AuthoritativeState, CheckpointBuilder, Settings, ContextSnapshot,
  FullRebaseCandidate, is_meaningful_removal, with_checkpoint, assemble_candidate, request_tokens,
  raw_budget, previous_handoff, removed_ordinals, emergency_deterministic_reserve,
  emergency_semantic_payload,
}
use local_coding_agent_harne.Context.Manager.{
  build_semantic_candidate, build_emergency_candidate, or_emergency,
}

-- A candidate is a checkpoint and what a selection keeps of the snapshot, and it passes the guards.
pub record IsCandidate {Sources : Type 0} (builder : CheckpointBuilder Sources)
    (settings : Settings) (snapshot : ContextSnapshot) (candidate : FullRebaseCandidate)
    : Type 0 where
  pub checkpoint : Text
  pub budget : ℕ
  pub items :
      candidate.items
      ≡ with_checkpoint checkpoint (select_final_raw (settings.measure) snapshot.items budget).0
  pub removed : candidate.removed ≡ (select_final_raw (settings.measure) snapshot.items budget).1
  pub meaningful : is_meaningful_removal candidate.removed ≡ true
  pub tokens :
      candidate.local_input_tokens_after
      ≡ request_tokens builder settings (messages_of candidate.items)
  pub ceiling : candidate.local_input_tokens_after ≤ settings.post_rebase_ceiling_tokens
  pub smaller : candidate.local_input_tokens_after < snapshot.local_input_tokens
  pub limit : candidate.local_input_tokens_after < snapshot.hard_input_limit_tokens
  pub protocol : protocol_is_complete (settings.measure) (messages_of candidate.items) ≡ true

module _ {Sources : Type 0} (builder : CheckpointBuilder Sources) (settings : Settings) where
  assemble-IsCandidate :
      (snapshot : ContextSnapshot) (deterministic : AuthoritativeState) (semantic : Text)
      (budget : ℕ) (emergency : Bool) (candidate : FullRebaseCandidate)
      → let (groups, removed) = select_final_raw (settings.measure) snapshot.items budget in
        is_meaningful_removal removed ≡ true
        → assemble_candidate builder settings snapshot deterministic semantic groups removed
            emergency
          ≡ ok candidate
        → IsCandidate builder settings snapshot candidate
  unfolding assemble_candidate
  assemble-IsCandidate snapshot deterministic semantic budget emergency candidate m h =
      elim (Option-cases (builder.serialize_checkpoint deterministic.serialized semantic)) [
        | inl e ↦ absurd (ground arith)
        | inr (checkpoint, e) ↦ record {
          checkpoint = checkpoint;
          budget = budget;
          items = ground arith;
          removed = ground arith;
          meaningful = ground arith;
          tokens = ground arith;
          ceiling = ground arith;
          smaller = ground arith;
          limit = ground arith;
          protocol = ground arith;
        }
      ]

  pub semantic-IsCandidate :
      (context : ContextState Sources) (snapshot : ContextSnapshot)
      (candidate : FullRebaseCandidate)
      → build_semantic_candidate builder settings context snapshot ≡ ok candidate
      → IsCandidate builder settings snapshot candidate
  unfolding build_semantic_candidate
  semantic-IsCandidate context snapshot candidate h =
      elim (Option-cases (builder.authoritative_state context (snapshot.generation + 1))) [
        | inl e ↦ absurd (ground arith)
        | inr (deterministic, e) ↦
            let limit = builder.semantic_actual_max context deterministic in
            let budget =
              raw_budget builder settings
                (deterministic.actual_tokens + builder.wrapper_tokens + limit) in
            let selection = select_final_raw (settings.measure) snapshot.items budget in
            elim (Option-cases (
              builder.semantic_input context (selection.1)
                (previous_handoff (builder.extract_semantic_handoff) (selection.1))
                deterministic)) [
                  | inl i ↦ absurd (ground arith)
                  | inr (messages, i) ↦ elim (Option-cases (builder.call_model messages limit)) [
                    | inl r ↦ absurd (ground arith)
                    | inr (response, r) ↦
                        elim (Option-cases (builder.validate_semantic_output response limit)) [
                          | inl v ↦ absurd (ground arith)
                          | inr (semantic, v) ↦
                              assemble-IsCandidate snapshot deterministic semantic budget false
                                candidate (ground arith) (ground arith)
                        ]
                  ]
                ]
      ]

  emergency-IsCandidate :
      (context : ContextState Sources) (snapshot : ContextSnapshot)
      (candidate : FullRebaseCandidate)
      → build_emergency_candidate builder settings context snapshot ≡ ok candidate
      → IsCandidate builder settings snapshot candidate
  unfolding build_emergency_candidate
  emergency-IsCandidate context snapshot candidate h =
      let budget = raw_budget builder settings (
        emergency_deterministic_reserve
        + builder.wrapper_tokens
        + estimate_text_tokens emergency_semantic_payload) in
      let selection = select_final_raw (settings.measure) snapshot.items budget in
      elim (Option-cases (
        builder.emergency_state context (removed_ordinals (selection.1))
          (snapshot.generation + 1))) [
            | inl e ↦ absurd (ground arith)
            | inr (state, e) ↦
                assemble-IsCandidate snapshot (state.0) emergency_semantic_payload budget true
                  candidate (ground arith) (ground arith)
          ]

  pub or_emergency-IsCandidate :
      (hard_pressure : Bool) (context : ContextState Sources) (snapshot : ContextSnapshot)
      (first : Outcome RebaseFailure FullRebaseCandidate) (candidate : FullRebaseCandidate)
      → ((c : FullRebaseCandidate) → first ≡ ok c → IsCandidate builder settings snapshot c)
      → or_emergency builder settings hard_pressure context snapshot first ≡ ok candidate
      → IsCandidate builder settings snapshot candidate
  or_emergency-IsCandidate hard_pressure context snapshot (ok c) candidate sound h =
      sound candidate h
  or_emergency-IsCandidate true context snapshot (err e) candidate sound h =
      emergency-IsCandidate context snapshot candidate h
  or_emergency-IsCandidate false context snapshot (err e) candidate sound h = ground arith
