-- ===== src/Security/Risk/Complete.antt =====
-- The classifier and the commands that are passive (src/runtime/security/risk_classifier.py).
use local_coding_agent_harne.Prelude.{
  ◌≡◌, ◌≢◌, ◌↔◌, all_of, refl, true, false, not, Option, none, some, is_none, List, [], ◌∷◌, map,
  Text, strip, is_nil, any_of, All, arith, Bool-cases, Option-cases, inl, inr,
}
use local_coding_agent_harne.Security.Models.{or_text}
use local_coding_agent_harne.Security.Shell.{split_shell_segments}
use local_coding_agent_harne.Security.Shell.Effects.{ShellLibrary}
use local_coding_agent_harne.Security.Risk.Tables.{safe_check_prefixes, read_only_prefixes}
use local_coding_agent_harne.Security.Risk.{
  Patterns, Seen, segment_decision, unseen, see, matched_prefix, has_prefix, recognize_from,
  risk_of_seen, command_prefix, classify_shell_segments, python_write_details, classify_bash,
}
use local_coding_agent_harne.Security.Risk.Recognized.{
  is_listed, is_passive_risk, lowered_segments, IsPassive, classify_bash-IsPassive,
}

listed-matched_prefix :
    (command : Text) (prefixes : List Text)
    → any_of (λ prefix. has_prefix command prefix) prefixes ≡ true
    → is_none (matched_prefix command prefixes) ≡ false
unfolding matched_prefix
listed-matched_prefix command [] h = ground arith
listed-matched_prefix command (prefix ∷ prefixes) h =
    ground (arith, listed-matched_prefix command prefixes)

full-matched_prefix :
    (command : Text) (prefixes : List Text)
    → all_of (λ prefix. not (is_nil prefix)) prefixes ≡ true
    → matched_prefix command prefixes ≢ some []
unfolding matched_prefix
full-matched_prefix command [] h e = ground arith
full-matched_prefix command ([] ∷ prefixes) h e = ground arith
full-matched_prefix command ((c ∷ prefix) ∷ prefixes) h e =
    ground (arith, full-matched_prefix command prefixes)

or_text-right : (a b : Option Text) → is_none b ≡ false → is_none (or_text a b) ≡ false
or_text-right none b h = h
or_text-right (some []) b h = h
or_text-right (some (c ∷ a)) b h = refl

or_text-left : (a b : Option Text) → is_none a ≡ false → a ≢ some [] → is_none (or_text a b) ≡ false
or_text-left none b h k = ground arith
or_text-left (some []) b h k = absurd (k refl)
or_text-left (some (c ∷ a)) b h k = refl

listed-or_text :
    (command : Text)
    → is_listed command ≡ true
    → is_none (
        or_text
          (matched_prefix command safe_check_prefixes)
          (matched_prefix command read_only_prefixes))
      ≡ false
unfolding is_listed
listed-or_text command h =
    let safe = matched_prefix command safe_check_prefixes in
    let read = matched_prefix command read_only_prefixes in
    elim (Bool-cases (any_of (λ prefix. has_prefix command prefix) safe_check_prefixes)) [
      | inl s ↦
          or_text-left safe read (listed-matched_prefix command safe_check_prefixes s)
            (full-matched_prefix command safe_check_prefixes refl)
      | inr n ↦
          or_text-right safe read (listed-matched_prefix command read_only_prefixes (rw n at h))
    ]

listed-recognize_from :
    (seen : Seen) (segments : List Text)
    → All (λ segment. is_listed segment ≡ true) segments
    → is_none (recognize_from seen segments) ≡ false
unfolding recognize_from
listed-recognize_from seen [] h = refl
listed-recognize_from seen (segment ∷ segments) (h, hs) =
    let safe = matched_prefix segment safe_check_prefixes in
    let read = matched_prefix segment read_only_prefixes in
    elim (Option-cases (or_text safe read)) [
      | inl e ↦ absurd (ground (arith, listed-or_text segment h))
      | inr (prefix, e) ↦ rw (e, is_none) (listed-recognize_from (see seen safe prefix) segments hs)
    ]

risk_of_seen-passive :
    (seen : Option Seen) (prefix : Option Text)
    → is_none seen ≡ false
    → is_passive_risk (segment_decision (risk_of_seen seen) prefix).risk ≡ true
risk_of_seen-passive none prefix h = ground arith
risk_of_seen-passive (some seen) prefix h = ground arith

map-nil : (f : Text → Text) (xs : List Text) → is_nil (map f xs) ≡ is_nil xs
map-nil f [] = refl
map-nil f (x ∷ xs) = refl

module _ (library : ShellLibrary) (patterns : Patterns) where
  IsPassive-classify_shell_segments :
      (command : Text)
      → IsPassive library patterns command
      → is_passive_risk
          (segment_decision
            (classify_shell_segments library patterns command)
            (command_prefix (library.lower) command)).risk
        ≡ true
  unfolding classify_shell_segments
  IsPassive-classify_shell_segments command p =
      let seen = recognize_from unseen (lowered_segments library patterns command) in
      let known =
        risk_of_seen-passive seen (command_prefix (library.lower) command)
          (listed-recognize_from unseen (lowered_segments library patterns command) p.listed) in
      ground (arith, known, map-nil (λ s. library.lower (strip s)) (split_shell_segments command))

  unwritten :
      (command : Text)
      → (python_write_details library patterns command).1 ≡ false
      → is_nil (python_write_details library patterns command).0 ≡ true
  unfolding python_write_details
  unwritten command h = ground arith

  -- A command is classified as a safe check or a read-only command exactly if no rule for a more
  -- dangerous risk speaks, it has no dynamic part, it has a segment, and each of its segments
  -- is a listed command.
  pub classify_bash-IsPassive_iff :
      (command : Text)
      → (is_passive_risk (classify_bash library patterns command).risk ≡ true)
        ↔ IsPassive library patterns command
  unfolding classify_bash
  classify_bash-IsPassive_iff command = (
    classify_bash-IsPassive library patterns command,
    λ p. ground (
      arith,
      unwritten command p.python_writes_nothing,
      IsPassive-classify_shell_segments command p,
    ),
  )
