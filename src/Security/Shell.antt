-- ===== src/Security/Shell.antt =====
-- src/runtime/security/shell_analysis.py: the scans of a command that know its quotes.
pub mod Cut
pub mod Segments
pub mod Targets
pub mod Redirections
pub mod Effects
use local_coding_agent_harne.Prelude.{
  ℕ, zero, suc, ◌==◌, Bool, true, false, not, ◌&&◌, ◌||◌, Option, none, some, is_none, List, [],
  ◌∷◌, ◌++◌, map, length, Text, codes, strip, is_nil, is_space, is_prefix, strip_of, rstrip_of,
  contains, unique, if◌then◌else◌,
}

-- Where a scan stands: the quote that is open, and whether a backslash has just been read.
pub record Quoting : Type 0 where
  pub quote : Option ℕ
  pub escaped : Bool

abbrev pub unquoted : Quoting
unquoted = record { quote = none; escaped = false }

abbrev pub is_quote : ℕ → Bool
is_quote c = c == b'\'' || c == b'"'

abbrev pub is_open : Option ℕ → ℕ → Bool
is_open none c = false
is_open (some quote) c = quote == c

-- `char == "\\" and quote != "'"`
abbrev pub is_escape : Quoting → ℕ → Bool
is_escape q c = c == 92 && not (is_open q.quote b'\'')

-- The character is used up by the rules for quotes: the loop goes on behind it.
unfoldable pub is_inert : Quoting → ℕ → Bool
is_inert q c = q.escaped || is_escape q c || not (is_none q.quote) || is_quote c

abbrev pub close_or_stay : Option ℕ → ℕ → Option ℕ
close_or_stay none c = if is_quote c then some c else none
close_or_stay (some quote) c = if quote == c then none else some quote

-- The state behind the character.
unfoldable pub next_quoting : Quoting → ℕ → Quoting
next_quoting q c =
    if q.escaped
    then record { quote = q.quote; escaped = false }
    else if is_escape q c
    then record { quote = q.quote; escaped = true }
    else record { quote = close_or_stay q.quote c; escaped = false }

-- SHELL_SEPARATORS
abbrev pub is_double : ℕ → Text → Bool
is_double c text =
    (c == b'&' && is_prefix (codes "&") text) || (c == b'|' && is_prefix (codes "|") text)

abbrev pub is_single : ℕ → Bool
is_single c = c == b'|' || c == b';' || c == 10 || c == 13

-- A segment is kept unless only white space is left of it.
abbrev pub keep_segment : Text → List Text → List Text
keep_segment [] segments = segments
keep_segment (c ∷ segment) segments = (c ∷ segment) ∷ segments

-- The loop of `split_shell_segments`: `second` says that the character belongs to the separator
-- before it, `segment` is `command[start:index]`.
unfoldable pub split_from : Quoting → Bool → Text → Text → List Text
split_from q second segment [] = keep_segment (strip segment) []
split_from q true segment (c ∷ text) = split_from q false segment text
split_from q false segment (c ∷ text) =
    let inside = split_from (next_quoting q c) false (segment ++ c ∷ []) text in
    let double = keep_segment (strip segment) (split_from q true [] text) in
    let single = keep_segment (strip segment) (split_from q false [] text) in
    if is_inert q c
    then inside
    else if is_double c text
    then double
    else if is_single c
    then single
    else inside

unfoldable pub split_shell_segments : Text → List Text
split_shell_segments command = split_from unquoted false [] command

-- The character that `mask_quoted_text` leaves in place of `c`.
unfoldable pub masked : Quoting → ℕ → ℕ
masked q c =
    if q.escaped || is_escape q c
    then (if is_none q.quote then c else 32)
    else if not (is_none q.quote) || is_quote c
    then 32
    else c

unfoldable pub mask_from : Quoting → Text → Text
mask_from q [] = []
mask_from q (c ∷ text) = masked q c ∷ mask_from (next_quoting q c) text

unfoldable pub mask_quoted_text : Text → Text
mask_quoted_text command = mask_from unquoted command

-- `_clean_path`, which lowers with `lower`
abbrev pub is_device : Text → Bool
is_device path = contains path (codes "nul" ∷ codes "/dev/null" ∷ [])

abbrev pub is_variable : Text → Bool
is_variable path = is_prefix (codes "$") path || is_prefix (codes "%") path

unfoldable pub trim_path : Text → Text
trim_path value = rstrip_of (λ c. c == b',' || c == b')') (strip_of is_quote (strip value))

unfoldable pub clean_path : (Text → Text) → Text → Option Text
clean_path lower value =
    let cleaned = trim_path value in
    if is_nil cleaned || is_device (lower cleaned) || is_variable cleaned
    then none
    else some cleaned

-- The rest of a command with the character before it.
pub record Cursor : Type 0 where
  pub last : Option ℕ
  pub rest : Text

abbrev pub is_word_end : ℕ → Bool
is_word_end c =
    is_space c
    || c == b'&'
    || c == b'|'
    || c == b';'
    || c == b'<'
    || c == b'>'
    || c == 13
    || c == 10

-- A character within quotes or behind a backslash, as `_read_shell_word` takes it.
abbrev pub taken : Quoting → ℕ → Text
taken q c =
    if q.escaped
    then c ∷ []
    else if is_escape q c
    then []
    else if is_none q.quote || is_open q.quote c
    then []
    else c ∷ []

-- `_read_shell_word`
unfoldable pub read_word : Quoting → Option ℕ → Text → Text × Cursor
read_word q last [] = ([], record { last = last; rest = [] })
read_word q last (c ∷ text) =
    let (word, cursor) = read_word (next_quoting q c) (some c) text in
    if is_inert q c
    then (taken q c ++ word, cursor)
    else if is_word_end c
    then ([], record { last = last; rest = c ∷ text })
    else (c ∷ word, cursor)

-- The white space behind the operator.
unfoldable pub skip_spaces : Cursor → Text → Cursor
skip_spaces cursor [] = record { last = cursor.last; rest = [] }
skip_spaces cursor (c ∷ text) =
    let further = skip_spaces (record { last = some c; rest = text }) text in
    if is_space c then further else record { last = cursor.last; rest = c ∷ text }

-- Behind `>`, which may be the first character of `>>`.
abbrev pub after_operator : Text → Cursor
after_operator [] = record { last = some b'>'; rest = [] }
after_operator (c ∷ text) =
    if c == b'>'
    then record { last = some b'>'; rest = text }
    else record { last = some b'>'; rest = c ∷ text }

-- `index > 0 and command[index - 1] in {">", "<"}`
abbrev pub follows_angle : Option ℕ → Bool
follows_angle none = false
follows_angle (some c) = c == b'>' || c == b'<'

abbrev pub add_target : Option Text → List Text → List Text
add_target none targets = targets
add_target (some target) targets = target ∷ targets

-- What the loop does at an operator: the target it reads, if there is one, and where it goes on.
unfoldable pub redirection : (Text → Text) → Text → Option Text × Cursor
redirection lower text =
    let cursor = after_operator text in
    let start = skip_spaces cursor cursor.rest in
    let (word, end) = read_word unquoted start.last start.rest in
    if is_nil start.rest || is_prefix (codes "&") start.rest
    then (none, start)
    else (clean_path lower word, end)

-- The loop of `redirection_targets`; the fuel bounds its rounds.
unfoldable pub targets_from : (Text → Text) → ℕ → Quoting → Option ℕ → Text → List Text
targets_from lower zero q last text = []
targets_from lower (suc fuel) q last [] = []
targets_from lower (suc fuel) q last (c ∷ text) =
    let on = targets_from lower fuel (next_quoting q c) (some c) text in
    let (target, cursor) = redirection lower text in
    let found = add_target target (targets_from lower fuel q cursor.last cursor.rest) in
    if is_inert q c || not (c == b'>') || follows_angle last then on else found

unfoldable pub redirection_targets : (Text → Text) → Text → List Text
redirection_targets lower command =
    unique (targets_from lower (length command) unquoted none command)
