-- ===== src/Security/Shell/Segments.antt =====
-- The segments of a command (src/runtime/security/shell_analysis.py) against its cut.
use mathlib.Core.List.{append_assoc, reverse-append, reverse-reverse}
use local_coding_agent_harne.Prelude.{
  ℕ, ◌≡◌, refl, sym, ap, ◌∙◌, subst, Bool, true, false, List, [], ◌∷◌, ◌++◌, reverse, Text, strip,
  drop_spaces, is_space, is_prefix, All, if◌then◌else◌, arith, Bool-cases, inl, inr,
}
use local_coding_agent_harne.Security.Shell.{
  Quoting, unquoted, is_inert, next_quoting, is_double, keep_segment, split_shell_segments,
}
use local_coding_agent_harne.Security.Shell.Cut.{
  cut_from, cut, glue, kept, is_uncut, is_uncut_before, run, split-kept, is_uncut-prefix,
  cut-AreUncut, AreUncut,
}

abbrev drop_one : Text → Text
drop_one [] = []
drop_one (c ∷ text) = text

double-drop : (c : ℕ) (text : Text) → is_double c text ≡ true → c ∷ drop_one text ≡ text
unfolding is_prefix
double-drop c [] h = ground arith
double-drop c (d ∷ text) h = ground arith

-- The pieces and their separators are the text again.
cut-glue :
    (q : Quoting) (second : Bool) (segment text : Text)
    → glue (cut_from q second segment text) ≡ segment ++ (if second then drop_one text else text)
unfolding cut_from
cut-glue q true segment [] = refl
cut-glue q false segment [] = refl
cut-glue q true segment (c ∷ text) = cut-glue q false segment text
cut-glue q false segment (c ∷ text) = ground (
  arith,
  cut-glue (next_quoting q c) false (segment ++ c ∷ []) text,
  append_assoc segment (c ∷ []) text,
  double-drop c text,
  cut-glue q true [] text,
  cut-glue q false [] text,
)

drop_spaces-suffix : (text : Text) → (front : Text) × (front ++ drop_spaces text ≡ text)
unfolding drop_spaces
drop_spaces-suffix [] = ([], refl)
drop_spaces-suffix (c ∷ text) =
    let (front, e) = drop_spaces-suffix text in
    elim (Bool-cases (is_space c)) [
      | inl s ↦ rw s (c ∷ front, ap (λ t. c ∷ t) e)
      | inr n ↦ rw n ([], refl)
    ]

drop_spaces-uncut :
    (text : Text) → is_uncut unquoted text ≡ true → is_uncut unquoted (drop_spaces text) ≡ true
unfolding drop_spaces is_uncut is_inert next_quoting
drop_spaces-uncut [] h = refl
drop_spaces-uncut (c ∷ text) h = ground (arith, drop_spaces-uncut text)

strip-uncut : (text : Text) → is_uncut unquoted text ≡ true → is_uncut unquoted (strip text) ≡ true
unfolding strip
strip-uncut text h =
    let start = drop_spaces text in
    let (front, e) = drop_spaces-suffix (reverse start) in
    is_uncut-prefix unquoted (strip text) (reverse front) (
      subst (λ t. is_uncut unquoted t ≡ true)
        (sym (
          sym (reverse-append front (drop_spaces (reverse start)))
          ∙ ap reverse e
          ∙ reverse-reverse start))
        (drop_spaces-uncut text h))

-- No segment holds a separator outside its quotes.
abbrev pub AreSegments : List Text → Type 0
AreSegments segments = All (λ segment. is_uncut unquoted segment ≡ true) segments

keep-AreSegments :
    (segment : Text) (segments : List Text)
    → is_uncut unquoted segment ≡ true
    → AreSegments segments
    → AreSegments (keep_segment segment segments)
keep-AreSegments [] segments h hs = hs
keep-AreSegments (c ∷ segment) segments h hs = (h, hs)

kept-AreSegments : (pieces : List (Text × Text)) → AreUncut pieces → AreSegments (kept pieces)
kept-AreSegments [] h = tt
kept-AreSegments ((segment, separator) ∷ pieces) (h, hs) =
    keep-AreSegments (strip segment) (kept pieces) (strip-uncut segment h)
      (kept-AreSegments pieces hs)

-- The cut of a command into raw pieces and their separators gives back the command when it is
-- glued; the segments of the command are the stripped pieces that are not empty, in order; and
-- none of them holds a separator outside its quotes.
pub split_shell_segments-glue :
    (command : Text)
    → (glue (cut command) ≡ command)
      × (split_shell_segments command ≡ kept (cut command))
      × AreSegments (split_shell_segments command)
unfolding split_shell_segments run is_uncut_before
split_shell_segments-glue command =
    let same = split-kept unquoted false [] command in
    (
      cut-glue unquoted false [] command,
      same,
      subst AreSegments (sym same)
          (kept-AreSegments (cut command) (cut-AreUncut unquoted false [] command refl refl)),
    )
