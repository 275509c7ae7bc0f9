-- ===== src/Security/Risk/Recognized.antt =====
-- What a recognized command is (src/runtime/security/risk_classifier.py).
use local_coding_agent_harne.Prelude.{
  ◌≡◌, ◌⊎◌, refl, Bool, true, false, not, ◌||◌, Option, none, some, is_none, List, [], ◌∷◌, map,
  Text, strip, is_nil, any_of, All, arith, Bool-cases, Option-cases, inl, inr,
}
use local_coding_agent_harne.Security.Models.{BashRisk, or_text, risk_is}
use local_coding_agent_harne.Security.Shell.{mask_quoted_text, split_shell_segments}
use local_coding_agent_harne.Security.Shell.Effects.{
  ShellLibrary, has_network, has_file_mutation, analyze_shell_effects,
}
use local_coding_agent_harne.Security.Risk.Tables.{
  destructive_patterns, file_write_patterns, network_patterns, safe_check_prefixes,
  read_only_prefixes,
}
use local_coding_agent_harne.Security.Risk.{
  Patterns, Seen, unseen, see, matched_pattern, matched_prefix, has_prefix, recognize_from,
  risk_of_seen, is_dynamic, is_python_inline, command_prefix, without_bodies, normalize,
  classify_shell_segments, delete_details, python_write_details, classify_bash,
}

-- The command begins with one of the listed commands.
unfoldable pub is_listed : Text → Bool
is_listed command =
    any_of (λ prefix. has_prefix command prefix) safe_check_prefixes
    || any_of (λ prefix. has_prefix command prefix) read_only_prefixes

matched_prefix-listed :
    (command : Text) (prefixes : List Text)
    → is_none (matched_prefix command prefixes) ≡ false
    → any_of (λ prefix. has_prefix command prefix) prefixes ≡ true
unfolding matched_prefix
matched_prefix-listed command [] h = ground arith
matched_prefix-listed command (prefix ∷ prefixes) h =
    ground (arith, matched_prefix-listed command prefixes)

or_text-given :
    (a b : Option Text) → is_none (or_text a b) ≡ false → (is_none a ≡ false) ⊎ (is_none b ≡ false)
or_text-given none b h = inr h
or_text-given (some a) b h = inl refl

pub recognize_from-listed :
    (seen : Seen) (segments : List Text)
    → is_none (recognize_from seen segments) ≡ false
    → All (λ segment. is_listed segment ≡ true) segments
unfolding recognize_from is_listed
recognize_from-listed seen [] h = tt
recognize_from-listed seen (segment ∷ segments) h =
    let safe = matched_prefix segment safe_check_prefixes in
    let read = matched_prefix segment read_only_prefixes in
    elim (Option-cases (or_text safe read)) [
      | inl e ↦ absurd (ground arith)
      | inr (prefix, e) ↦ (
        elim (or_text-given safe read (rw e refl)) [
          | inl s ↦ rw (matched_prefix-listed segment safe_check_prefixes s) refl
          | inr r ↦ ground (arith, matched_prefix-listed segment read_only_prefixes r)
        ],
        recognize_from-listed (see seen safe prefix) segments (rw (e, is_none) at h),
      )
    ]

risk_of_seen-none :
    (seen : Option Seen) → is_none (risk_of_seen seen) ≡ false → is_none seen ≡ false
risk_of_seen-none none h = ground arith
risk_of_seen-none (some seen) h = refl

-- A risk that a mode may allow without asking.
abbrev pub is_passive_risk : BashRisk → Bool
is_passive_risk risk = risk_is risk BashRisk.safe_check || risk_is risk BashRisk.read_only_command

module _ (library : ShellLibrary) (patterns : Patterns) where
  -- The segments as `_classify_shell_segments` compares them.
  abbrev pub lowered_segments : Text → List Text
  lowered_segments command = map (λ s. library.lower (strip s)) (split_shell_segments command)

  -- No rule for a more dangerous risk speaks, and every segment is a listed command.
  pub record IsPassive (command : Text) : Type 0 where
    pub not_destructive :
        matched_pattern (normalize library patterns command) destructive_patterns ≡ none
    pub keeps_files : (delete_details library patterns command).1 ≡ false
    pub python_writes_nothing : (python_write_details library patterns command).1 ≡ false
    pub no_patch :
        patterns.apply_patch (mask_quoted_text (without_bodies library patterns command)) ≡ false
    pub no_network :
        has_network (analyze_shell_effects library (without_bodies library patterns command))
        ≡ false
    pub no_network_word :
        matched_pattern (normalize library patterns command) network_patterns ≡ none
    pub no_write_word :
        matched_pattern (normalize library patterns command) file_write_patterns ≡ none
    pub no_mutation :
        (is_python_inline (command_prefix (library.lower) command)
          || not (
              has_file_mutation
                (analyze_shell_effects library (without_bodies library patterns command))))
        ≡ true
    pub not_dynamic : is_dynamic command ≡ false
    pub not_empty : is_nil (split_shell_segments command) ≡ false
    pub listed : All (λ segment. is_listed segment ≡ true) (lowered_segments command)

  classify_shell_segments-listed :
      (command : Text)
      → is_none (classify_shell_segments library patterns command) ≡ false
      → (is_dynamic command ≡ false)
        × (is_nil (split_shell_segments command) ≡ false)
        × All (λ segment. is_listed segment ≡ true) (lowered_segments command)
  unfolding classify_shell_segments
  classify_shell_segments-listed command h = elim (Bool-cases (is_dynamic command)) [
    | inl d ↦ absurd (ground arith)
    | inr d ↦ elim (Bool-cases (is_nil (lowered_segments command))) [
      | inl n ↦ absurd (ground arith)
      | inr n ↦ (
        d,
        ground arith,
        recognize_from-listed unseen (lowered_segments command)
            (risk_of_seen-none (recognize_from unseen (lowered_segments command)) (ground arith)),
      )
    ]
  ]

  pub classify_bash-IsPassive :
      (command : Text)
      → is_passive_risk (classify_bash library patterns command).risk ≡ true
      → IsPassive command
  unfolding classify_bash
  classify_bash-IsPassive command h =
      let (d, n, l) = classify_shell_segments-listed command (ground arith) in
      record {
        not_destructive = ground arith;
        keeps_files = ground arith;
        python_writes_nothing = ground arith;
        no_patch = ground arith;
        no_network = ground arith;
        no_network_word = ground arith;
        no_write_word = ground arith;
        no_mutation = ground arith;
        not_dynamic = d;
        not_empty = n;
        listed = l;
      }
