-- ===== src/Security/Shell/Cut.antt =====
-- The cut of a command into raw pieces, an independent description of its segments
-- (src/runtime/security/shell_analysis.py).
use mathlib.Core.List.{append_assoc}
use local_coding_agent_harne.Prelude.{
  ℕ, ◌≡◌, refl, sym, ap, ◌∙◌, Bool, true, false, not, ◌&&◌, ◌||◌, List, [], ◌∷◌, ◌++◌, Text, strip,
  is_prefix, All, if◌then◌else◌, arith, Bool-cases, inl, inr,
}
use local_coding_agent_harne.Security.Shell.{
  Quoting, unquoted, is_inert, next_quoting, is_double, is_single, keep_segment, split_from,
}

-- The cut of a command at its separators: each raw segment with the separator behind it.
unfoldable pub cut_from : Quoting → Bool → Text → Text → List (Text × Text)
cut_from q second segment [] = (segment, []) ∷ []
cut_from q true segment (c ∷ text) = cut_from q false segment text
cut_from q false segment (c ∷ text) =
    let inside = cut_from (next_quoting q c) false (segment ++ c ∷ []) text in
    let double = (segment, c ∷ c ∷ []) ∷ cut_from q true [] text in
    let single = (segment, c ∷ []) ∷ cut_from q false [] text in
    if is_inert q c
    then inside
    else if is_double c text
    then double
    else if is_single c
    then single
    else inside

abbrev pub cut : Text → List (Text × Text)
cut command = cut_from unquoted false [] command

abbrev pub glue : List (Text × Text) → Text
glue [] = []
glue ((segment, separator) ∷ pieces) = segment ++ (separator ++ glue pieces)

-- The segments that are kept of a cut.
abbrev pub kept : List (Text × Text) → List Text
kept [] = []
kept ((segment, separator) ∷ pieces) = keep_segment (strip segment) (kept pieces)

pub split-kept :
    (q : Quoting) (second : Bool) (segment text : Text)
    → split_from q second segment text ≡ kept (cut_from q second segment text)
unfolding split_from cut_from
split-kept q true segment [] = refl
split-kept q false segment [] = refl
split-kept q true segment (c ∷ text) = split-kept q false segment text
split-kept q false segment (c ∷ text) = ground (
  arith,
  split-kept (next_quoting q c) false (segment ++ c ∷ []) text,
  split-kept q true [] text,
  split-kept q false [] text,
)

-- No character is a separator: each is used up by a quote, or neither it nor it and the next
-- character are one.
unfoldable pub is_uncut : Quoting → Text → Bool
is_uncut q [] = true
is_uncut q (c ∷ text) =
    (is_inert q c || not (is_double c text || is_single c)) && is_uncut (next_quoting q c) text

-- The same of `text`, which `rest` follows.
unfoldable pub is_uncut_before : Quoting → Text → Text → Bool
is_uncut_before q [] rest = true
is_uncut_before q (c ∷ text) rest =
    (is_inert q c || not (is_double c (text ++ rest) || is_single c))
    && is_uncut_before (next_quoting q c) text rest

unfoldable pub run : Quoting → Text → Quoting
run q [] = q
run q (c ∷ text) = run (next_quoting q c) text

run-append : (q : Quoting) (a b : Text) → run q (a ++ b) ≡ run (run q a) b
unfolding run
run-append q [] b = refl
run-append q (c ∷ a) b = run-append (next_quoting q c) a b

before-snoc :
    (q : Quoting) (segment : Text) (c : ℕ) (text : Text)
    → is_uncut_before q segment (c ∷ text) ≡ true
    → (is_inert (run q segment) c || not (is_double c text || is_single c)) ≡ true
    → is_uncut_before q (segment ++ c ∷ []) text ≡ true
unfolding is_uncut_before run
before-snoc q [] c text h k = ground arith
before-snoc q (x ∷ segment) c text h k =
    ground
      (arith, append_assoc segment (c ∷ []) text, before-snoc (next_quoting q x) segment c text)

-- Every raw segment of a cut is uncut.
abbrev pub AreUncut : List (Text × Text) → Type 0
AreUncut pieces = All (λ piece. is_uncut unquoted piece.0 ≡ true) pieces

before-prefix :
    (q : Quoting) (a rest : Text) → is_uncut_before q a rest ≡ true → is_uncut q a ≡ true
unfolding is_uncut_before is_uncut is_prefix
before-prefix q [] rest h = refl
before-prefix q (c ∷ []) rest h = ground arith
before-prefix q (c ∷ d ∷ a) rest h = ground (arith, before-prefix (next_quoting q c) (d ∷ a) rest)

pub is_uncut-prefix :
    (q : Quoting) (a rest : Text) → is_uncut q (a ++ rest) ≡ true → is_uncut q a ≡ true
unfolding is_uncut is_prefix
is_uncut-prefix q [] rest h = refl
is_uncut-prefix q (c ∷ []) rest h = ground arith
is_uncut-prefix q (c ∷ d ∷ a) rest h =
    ground (arith, is_uncut-prefix (next_quoting q c) (d ∷ a) rest)

plain-next :
    (q : Quoting) (c : ℕ) → q ≡ unquoted → is_inert q c ≡ false → next_quoting q c ≡ unquoted
unfolding is_inert next_quoting
plain-next q c e h = ground arith

inert-unquoted : (q : Quoting) (c : ℕ) → is_inert q c ≡ false → q ≡ unquoted
unfolding is_inert
inert-unquoted q c h = ground arith

-- What holds of the segment so far.
abbrev pub IsBegun : Bool → Text → Text → Type 0
IsBegun true segment text = segment ≡ []
IsBegun false segment text = is_uncut_before unquoted segment text ≡ true

pub cut-AreUncut :
    (q : Quoting) (second : Bool) (segment text : Text)
    → q ≡ run unquoted segment
    → IsBegun second segment text
    → AreUncut (cut_from q second segment text)
unfolding cut_from is_uncut is_uncut_before run
cut-AreUncut q true segment [] r h = rw h (refl, tt)
cut-AreUncut q false segment [] r h = (before-prefix unquoted segment [] h, tt)
cut-AreUncut q true segment (c ∷ text) r h = cut-AreUncut q false segment text r (rw h refl)
cut-AreUncut q false segment (c ∷ text) r h =
    let whole = before-prefix unquoted segment (c ∷ text) h in
    let inside = λ (k : (is_inert q c || not (is_double c text || is_single c)) ≡ true).
      cut-AreUncut (next_quoting q c) false (segment ++ c ∷ []) text
        (ap (λ p. next_quoting p c) r ∙ sym (run-append unquoted segment (c ∷ [])))
        (before-snoc unquoted segment c text h (rw⁻¹ r k)) in
    elim (Bool-cases (is_inert q c)) [
      | inl i ↦ rw i (inside (ground arith))
      | inr n ↦
          let start = inert-unquoted q c n in
          elim (Bool-cases (is_double c text)) [
            | inl d ↦ rw (n, d) (whole, cut-AreUncut q true [] text start refl)
            | inr d ↦ elim (Bool-cases (is_single c)) [
              | inl o ↦ rw (n, d, o) (whole, cut-AreUncut q false [] text start refl)
              | inr o ↦ rw (n, d, o) (inside (ground arith))
            ]
          ]
    ]
