-- ===== src/Security/Shell/Redirections.antt =====
-- The redirections of a command (src/runtime/security/shell_analysis.py): the rounds of the scan,
-- and what it finds.
use local_coding_agent_harne.Prelude.{
  ℕ, zero, suc, ◌==◌, ◌≤◌, ◌≡◌, refl, ap, ◌∙◌, ◌+◌, text_eq_iff, text_eq_refl, Bool, true, false,
  not, ◌&&◌, ◌||◌, Option, none, some, List, [], ◌∷◌, ◌++◌, length, Text, contains, unique,
  unique_from, arith,
}
use local_coding_agent_harne.Security.Shell.{
  Quoting, unquoted, is_inert, next_quoting, Cursor, read_word, skip_spaces, after_operator,
  follows_angle, redirection, targets_from, redirection_targets,
}
use local_coding_agent_harne.Security.Shell.Cut.{run}

read_word-length :
    (q : Quoting) (last : Option ℕ) (text : Text)
    → length ((read_word q last text).1.rest) ≤ length text
unfolding read_word
read_word-length q last [] = omega arith
read_word-length q last (c ∷ text) =
    ground (arith, read_word-length (next_quoting q c) (some c) text)

skip_spaces-length :
    (cursor : Cursor) (text : Text) → length ((skip_spaces cursor text).rest) ≤ length text
unfolding skip_spaces
skip_spaces-length cursor [] = omega arith
skip_spaces-length cursor (c ∷ text) =
    ground (arith, skip_spaces-length record { last = some c; rest = text } text)

after_operator-length : (text : Text) → length ((after_operator text).rest) ≤ length text
after_operator-length [] = omega arith
after_operator-length (c ∷ text) = ground arith

redirection-length :
    (lower : Text → Text) (text : Text) → length ((redirection lower text).1.rest) ≤ length text
unfolding redirection
redirection-length lower text =
    let cursor = after_operator text in
    let next = skip_spaces cursor cursor.rest in
    ground (
      arith,
      after_operator-length text,
      skip_spaces-length cursor cursor.rest,
      read_word-length unquoted next.last next.rest,
    )

-- One more round changes nothing once the fuel has reached the length of the text.
targets_from-suc :
    (lower : Text → Text) (fuel : ℕ) (q : Quoting) (last : Option ℕ) (text : Text)
    → length text ≤ fuel
    → targets_from lower (suc fuel) q last text ≡ targets_from lower fuel q last text
unfolding targets_from
targets_from-suc lower zero q last [] h = refl
targets_from-suc lower zero q last (c ∷ text) h = ground arith
targets_from-suc lower (suc fuel) q last [] h = refl
targets_from-suc lower (suc fuel) q last (c ∷ text) h =
    let cursor = (redirection lower text).1 in
    ground (
      arith,
      redirection-length lower text,
      targets_from-suc lower fuel (next_quoting q c) (some c) text,
      targets_from-suc lower fuel q cursor.last cursor.rest,
    )

targets_from-more :
    (lower : Text → Text) (more : ℕ) (q : Quoting) (last : Option ℕ) (text : Text)
    → targets_from lower (more + length text) q last text
      ≡ targets_from lower (length text) q last text
targets_from-more lower zero q last text = ap (λ n. targets_from lower n q last text) (omega arith)
targets_from-more lower (suc more) q last text =
    ap (λ n. targets_from lower n q last text) (omega arith)
    ∙ targets_from-suc lower (more + length text) q last text (omega arith)
    ∙ targets_from-more lower more q last text

-- The scan for redirections ends within as many rounds as the command has characters: with any
-- more rounds it finds the same targets.
pub redirection_targets-more :
    (lower : Text → Text) (more : ℕ) (command : Text)
    → unique (targets_from lower (more + length command) unquoted none command)
      ≡ redirection_targets lower command
unfolding redirection_targets
redirection_targets-more lower more command =
    ap unique (targets_from-more lower more unquoted none command)

pub contains-unique_from :
    (value : Text) (seen values : List Text)
    → contains value values ≡ true
    → contains value seen ≡ false
    → contains value (unique_from seen values) ≡ true
unfolding contains unique_from
contains-unique_from value seen [] h n = ground arith
contains-unique_from value seen (x ∷ values) h n = ground (
  arith,
  contains-unique_from value seen values,
  contains-unique_from value (x ∷ seen) values,
  text_eq_iff value x,
)

-- No character of the text is an operator outside its quotes.
unfoldable pub is_undirected : Quoting → Text → Bool
is_undirected q [] = true
is_undirected q (c ∷ text) =
    (is_inert q c || not (c == b'>')) && is_undirected (next_quoting q c) text

unfoldable pub last_of : Option ℕ → Text → Option ℕ
last_of last [] = last
last_of last (c ∷ text) = last_of (some c) text

targets_from-found :
    (lower : Text → Text) (fuel : ℕ) (q : Quoting) (last : Option ℕ) (before text target : Text)
    → length (before ++ b'>' ∷ text) ≤ fuel
    → run q before ≡ unquoted
    → is_undirected q before ≡ true
    → follows_angle (last_of last before) ≡ false
    → (redirection lower text).0 ≡ some target
    → contains target (targets_from lower fuel q last (before ++ b'>' ∷ text)) ≡ true
unfolding targets_from run is_undirected last_of contains is_inert
targets_from-found lower zero q last [] text target h r u a e = ground arith
targets_from-found lower zero q last (c ∷ before) text target h r u a e = ground arith
targets_from-found lower (suc fuel) q last [] text target h r u a e =
    rw (r, a) (ground (arith, text_eq_refl target))
targets_from-found lower (suc fuel) q last (c ∷ before) text target h r u a e = ground (
  arith,
  targets_from-found lower fuel (next_quoting q c) (some c) before text target (omega (arith, h)) r,
)

-- A redirection is found if it is the first operator outside the quotes, does not stand behind
-- `<` or `>`, and has a target that is a path.
pub redirection_targets-found :
    (lower : Text → Text) (before text target : Text)
    → run unquoted before ≡ unquoted
    → is_undirected unquoted before ≡ true
    → follows_angle (last_of none before) ≡ false
    → (redirection lower text).0 ≡ some target
    → contains target (redirection_targets lower (before ++ b'>' ∷ text)) ≡ true
unfolding redirection_targets contains
redirection_targets-found lower before text target r u a e =
    let command = before ++ b'>' ∷ text in
    contains-unique_from target [] (targets_from lower (length command) unquoted none command)
      (targets_from-found lower (length command) unquoted none before text target (omega arith) r u
        a e)
      refl
