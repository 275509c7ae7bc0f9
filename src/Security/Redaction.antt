-- ===== src/Security/Redaction.antt =====
-- src/runtime/security/redaction.py: SecretRedactor, which takes secrets out of texts and values.
pub mod Hidden
use local_coding_agent_harne.Prelude.{
  ℕ, zero, suc, ◌+◌, ◌==◌, Bool, true, false, not, ◌&&◌, ◌||◌, List, [], ◌∷◌, ◌++◌, map, length,
  leb, Text, codes, strip, text_eq, is_nil, if◌then◌else◌,
}
use local_coding_agent_harne.Tools.EditFile.{count, replace_from}

-- What DOTENV_SECRET_RE finds in a text, from left to right: the text between the matches, and the
-- two groups of each match, which are all of it.
pub data Piece : Type 0 where
  between : Text → Piece
  assignment : Text → Text → Piece

-- The searches of the two patterns, and the order in which a set lists its elements.
pub record SecretLibrary : Type 0 where
  pub is_sensitive : Text → Bool
  pub pieces : Text → List Piece
  pub listed_set : List Text → List Text

-- A value of metadata; `other` is any value that is none of the rest.
mutual
  pub data Value : Type 0 where
    str : Text → Value
    list tuple : Values → Value
    dict : Fields → Value
    other : ℕ → Value

  pub data Values : Type 0 where
    no_items : Values
    item : Value → Values → Values

  pub data Fields : Type 0 where
    no_fields : Fields
    field : Text → Value → Fields → Fields

abbrev pub redacted_mark : Text
redacted_mark = codes "[REDACTED]"

abbrev pub min_secret_value_chars : ℕ
min_secret_value_chars = 8

-- `sorted(_, key=len, reverse=True)`, which keeps the order of texts of one length
unfoldable pub insert_longer : Text → List Text → List Text
insert_longer secret [] = secret ∷ []
insert_longer secret (next ∷ secrets) =
    let later = insert_longer secret secrets in
    if leb (length next) (length secret) then secret ∷ next ∷ secrets else next ∷ later

unfoldable pub sort_longest : List Text → List Text
sort_longest [] = []
sort_longest (secret ∷ secrets) = insert_longer secret (sort_longest secrets)

unfoldable pub long_values : List Text → List Text
long_values [] = []
long_values (value ∷ values) =
    let rest = long_values values in
    if leb min_secret_value_chars (length value) then value ∷ rest else rest

-- One round of the loop over the secrets, on the text and the number of replacements
abbrev pub redact_secret : Text → Text × ℕ → Text × ℕ
redact_secret secret (redacted, replacements) =
    let found = count secret redacted in
    if found == 0
    then (redacted, replacements)
    else (replace_from secret redacted_mark 0 redacted, replacements + found)

unfoldable pub redact_secrets : List Text → Text × ℕ → Text × ℕ
redact_secrets [] state = state
redact_secrets (secret ∷ secrets) state = redact_secrets secrets (redact_secret secret state)

-- `replace_assignment`, on the groups of the match, with the number of replacements
abbrev pub replace_assignment : Text → Text → Text × ℕ
replace_assignment name value =
    if is_nil (strip value) || text_eq (strip value) redacted_mark
    then (name ++ value, 0)
    else (name ++ redacted_mark, 1)

unfoldable pub substitute : List Piece → Text × ℕ
substitute [] = ([], 0)
substitute (Piece.between part ∷ pieces) = let (rest, n) = substitute pieces in (part ++ rest, n)
substitute (Piece.assignment name value ∷ pieces) =
    let (rest, n) = substitute pieces in
    let (part, k) = replace_assignment name value in (part ++ rest, k + n)

module _ (library : SecretLibrary) where
  -- `SecretRedactor.__init__`
  unfoldable pub init_secret_values : List Text → List Text
  init_secret_values values = sort_longest (library.listed_set (long_values values))

  -- The secrets of `from_environment`
  unfoldable pub environment_secrets : List (Text × Text) → List Text
  environment_secrets [] = []
  environment_secrets ((name, value) ∷ values) =
      let rest = environment_secrets values in
      if library.is_sensitive name then value ∷ rest else rest

  unfoldable pub redact_with_count : List Text → Text → Text × ℕ
  redact_with_count secrets text =
      let (redacted, replacements) = redact_secrets secrets (text, 0) in
      let (substituted, more) = substitute (library.pieces redacted) in
      (substituted, replacements + more)

  abbrev pub redact : List Text → Text → Text
  redact secrets text = (redact_with_count secrets text).0

  abbrev pub is_hidden_field : Text → Value → Bool
  is_hidden_field key (Value.str t) = library.is_sensitive key
  is_hidden_field key _ = false

  -- `redact_value`, on a value, on the items of one, and on the fields of one
  unfoldable mutual
    pub redact_value : List Text → Value → Value
    redact_value secrets (Value.str t) = Value.str (redact secrets t)
    redact_value secrets (Value.list values) = Value.list (redact_values secrets values)
    redact_value secrets (Value.tuple values) = Value.tuple (redact_values secrets values)
    redact_value secrets (Value.dict fields) = Value.dict (redact_fields secrets fields)
    redact_value secrets (Value.other n) = Value.other n

    pub redact_values : List Text → Values → Values
    redact_values secrets Values.no_items = Values.no_items
    redact_values secrets (Values.item v values) =
        Values.item (redact_value secrets v) (redact_values secrets values)

    pub redact_fields : List Text → Fields → Fields
    redact_fields secrets Fields.no_fields = Fields.no_fields
    redact_fields secrets (Fields.field key v fields) =
        let inner = redact_value secrets v in
        let shown = if is_hidden_field key v then Value.str redacted_mark else inner in
        Fields.field key shown (redact_fields secrets fields)
