-- ===== src/Context/Manager/Prepared.antt =====
-- `prepare_context` as a whole (src/runtime/context/manager.py).
use local_coding_agent_harne.Prelude.{
  ℕ, ◌+◌, ◌≤◌, ◌<◌, ◌≡◌, refl, sym, ap, ◌∙◌, Bool, true, false, not, ◌&&◌, ◌||◌, Option, none, List,
  [], ◌∷◌, ◌++◌, map, length, is_nil, Text, Outcome, ok, err, Bool-cases, arith, ◌⊎◌, inl, inr,
}
use local_coding_agent_harne.Context.Budget.{ContextMeasurement, measure_context, hard_limit}
use local_coding_agent_harne.Context.Messages.{Message}
use local_coding_agent_harne.Context.Rounds.{
  Item, messages_of, RemovedTrajectoryItem, select_final_raw, protocol_is_complete,
}
use local_coding_agent_harne.Context.Rounds.Regrouping.{flat}
use local_coding_agent_harne.Context.Rounds.Retained.{items_of_removed}
use local_coding_agent_harne.Context.Rounds.Selection.{select_final_raw-IsSelected}
use local_coding_agent_harne.Context.Candidate.{
  ContextState, RebaseFailure, CheckpointBuilder, Settings, FullRebaseCandidate,
  is_meaningful_removal, checkpoint_message, snapshot_items, zip_items, request_tokens,
}
use local_coding_agent_harne.Context.Manager.{
  CallReason, ContextPreparation, uncompacted, is_overflow, is_hard, has_hard_pressure,
  should_rebase, option_is, build_semantic_candidate, or_emergency, commit_candidate,
  mark_context_changed, snapshot_of, finish, prepare_context, measure,
}
use local_coding_agent_harne.Context.Manager.Committed.{
  IsCandidate, semantic-IsCandidate, or_emergency-IsCandidate,
}

zip-messages :
    (messages : List Message) (ordinals : List (Option ℕ))
    → messages_of (zip_items messages ordinals) ≡ messages
zip-messages [] ordinals = refl
zip-messages (m ∷ messages) [] = ap (λ ms. m ∷ ms) (zip-messages messages [])
zip-messages (m ∷ messages) (o ∷ ordinals) = ap (λ ms. m ∷ ms) (zip-messages messages ordinals)

snapshot-messages :
    (messages : List Message) (ordinals : List (Option ℕ))
    → messages_of (snapshot_items messages ordinals) ≡ messages
unfolding snapshot_items
snapshot-messages messages ordinals =
    ground (arith, zip-messages messages ordinals, zip-messages messages [])

messages-append : (a b : List Item) → messages_of (a ++ b) ≡ messages_of a ++ messages_of b
messages-append [] b = refl
messages-append (x ∷ a) b = ap (λ ms. x.message ∷ ms) (messages-append a b)

ordinals-length :
    (items : List Item)
    → length (map (λ (item : Item). item.ordinal) items) ≡ length (messages_of items)
ordinals-length [] = refl
ordinals-length (x ∷ items) = omega (arith, ordinals-length items)

meaningful-full :
    (removed : List RemovedTrajectoryItem)
    → is_meaningful_removal removed ≡ true
    → is_nil (messages_of (items_of_removed removed)) ≡ false
unfolding is_meaningful_removal
meaningful-full [] h = ground arith
meaningful-full (r ∷ removed) h = refl

module _ {Sources : Type 0} (builder : CheckpointBuilder Sources) (settings : Settings) where
  -- The messages are a checkpoint and the last of the messages before, and they fit.
  pub record IsRebased (context : ContextState Sources) (preparation : ContextPreparation)
      (after : ContextState Sources) : Type 0 where
    pub compacted : preparation.compacted ≡ true
    pub checkpoint : Text
    pub front : List Message
    pub retained : List Message
    pub messages : after.messages ≡ checkpoint_message checkpoint ∷ retained
    pub split : front ++ retained ≡ context.messages
    pub removes : is_nil front ≡ false
    pub protocol : protocol_is_complete (settings.measure) (after.messages) ≡ true
    pub ceiling :
        request_tokens builder settings (after.messages) ≤ settings.post_rebase_ceiling_tokens
    pub limit :
        request_tokens builder settings (after.messages)
        < hard_limit
            (settings.window_tokens)
            (settings.max_output_tokens)
            (settings.safety_margin_tokens)
    pub smaller :
        request_tokens builder settings (after.messages)
        < request_tokens builder settings (context.messages)
    pub saved :
        preparation.saved_tokens + request_tokens builder settings (after.messages)
        ≡ request_tokens builder settings (context.messages)
    pub generation : after.context_generation ≡ context.context_generation + 1
    pub aligned : length (after.message_audit_ordinals) ≡ length (after.messages)

  -- Nothing that the model sees has changed.
  pub record IsUntouched (context : ContextState Sources) (preparation : ContextPreparation)
      (after : ContextState Sources) : Type 0 where
    pub kept : preparation.compacted ≡ false
    pub messages : after.messages ≡ context.messages
    pub ordinals : after.message_audit_ordinals ≡ context.message_audit_ordinals
    pub generation : after.context_generation ≡ context.context_generation
    pub sources : after.sources ≡ context.sources

  commit-IsRebased :
      (project : List Message → Sources → Sources) (context : ContextState Sources)
      (automatic : Bool) (candidate : FullRebaseCandidate)
      → let before = measure settings context in
        IsCandidate builder settings (snapshot_of builder settings context before) candidate
        → let (preparation, after) =
            finish builder settings project context before automatic (ok candidate) in
          IsRebased context preparation after
  unfolding commit_candidate mark_context_changed measure measure_context
  commit-IsRebased project context automatic candidate c =
      let items = snapshot_items (context.messages) (context.message_audit_ordinals) in
      let selected = (select_final_raw (settings.measure) items c.budget).0 in
      let s = select_final_raw-IsSelected (settings.measure) items c.budget in
      record {
        compacted = refl;
        checkpoint = c.checkpoint;
        front = messages_of (flat s.front);
        retained = messages_of (flat selected);
        messages = ap messages_of c.items;
        split =
            sym (messages-append (flat s.front) (flat selected))
            ∙ ap messages_of s.whole
            ∙ snapshot-messages (context.messages) (context.message_audit_ordinals);
        removes =
            ap (λ xs. is_nil (messages_of xs)) (sym s.removed)
            ∙ ap (λ r. is_nil (messages_of (items_of_removed r))) (sym c.removed)
            ∙ meaningful-full candidate.removed c.meaningful;
        protocol = c.protocol;
        ceiling = rw⁻¹ (c.tokens) (c.ceiling);
        limit = rw⁻¹ (c.tokens) (c.limit);
        smaller = rw⁻¹ (c.tokens) (c.smaller);
        saved = rw⁻¹ (c.tokens) (omega (arith, c.smaller));
        generation = refl;
        aligned = ordinals-length candidate.items;
      }

  untouched :
      (context : ContextState Sources) (before : ContextMeasurement)
      → IsUntouched context (uncompacted before none) context
  untouched context before = record {
    kept = refl;
    messages = refl;
    ordinals = refl;
    generation = refl;
    sources = refl;
  }

  finish-cases :
      (project : List Message → Sources → Sources) (context : ContextState Sources)
      (automatic : Bool) (outcome : Outcome RebaseFailure FullRebaseCandidate)
      → let before = measure settings context in
        ((candidate : FullRebaseCandidate)
          → outcome ≡ ok candidate
          → IsCandidate builder settings (snapshot_of builder settings context before) candidate)
        → let (preparation, after) =
            finish builder settings project context before automatic outcome in
          IsRebased context preparation after ⊎ IsUntouched context preparation after
  finish-cases project context automatic (ok candidate) sound =
      inl (commit-IsRebased project context automatic candidate (sound candidate refl))
  finish-cases project context true (err failure) sound =
      inr
        record { kept = refl; messages = refl; ordinals = refl; generation = refl; sources = refl }
  finish-cases project context false (err failure) sound =
      inr
        record { kept = refl; messages = refl; ordinals = refl; generation = refl; sources = refl }

  -- Preparing a context either leaves the messages, their ordinals, the generation and the sources
  -- as they are and reports that nothing was compacted, or it replaces all but a last part of the
  -- messages by one checkpoint. Then the new request is smaller than the one before, stays under the
  -- ceiling and the hard limit, has every tool result it needs, the saved tokens are the difference,
  -- every message has an ordinal, and the generation is the next one.
  pub prepare_context-IsRebased :
      (project : List Message → Sources → Sources) (force : Bool) (reason : CallReason)
      (context : ContextState Sources)
      → let (preparation, after) = prepare_context builder settings project force reason context in
        IsRebased context preparation after ⊎ IsUntouched context preparation after
  unfolding prepare_context
  prepare_context-IsRebased project force reason context =
      let before = measure settings context in
      let hard_pressure = is_overflow reason || has_hard_pressure before in
      let explicit = force && not (is_overflow reason) && not (is_hard reason) in
      let automatic = not hard_pressure && not explicit in
      let snapshot = snapshot_of builder settings context before in
      let first = build_semantic_candidate builder settings context snapshot in
      elim (Bool-cases (not force && not (should_rebase before))) [
        | inl idle ↦ rw idle (inr (untouched context before))
        | inr due ↦
            elim (Bool-cases (
              automatic
              && option_is (context.last_auto_compaction_failed_generation)
                  (context.context_generation))) [
                    | inl off ↦ rw (due, off) (inr (untouched context before))
                    | inr on ↦
                        rw (due, on)
                          (finish-cases project context automatic
                            (or_emergency builder settings hard_pressure context snapshot first)
                            (λ candidate e.
                              or_emergency-IsCandidate builder settings hard_pressure context
                                snapshot first candidate
                                (semantic-IsCandidate builder settings context snapshot) e))
                  ]
      ]
