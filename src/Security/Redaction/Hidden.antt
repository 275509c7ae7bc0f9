-- ===== src/Security/Redaction/Hidden.antt =====
-- What the redactor leaves of a value and of a text (src/runtime/security/redaction.py).
use local_coding_agent_harne.Prelude.{
  ◌≡◌, ◌∙◌, ap, refl, ℕ, ◌≤◌, Bool, true, not, ◌&&◌, ◌||◌, List, [], ◌∷◌, ◌++◌, Text, text_eq,
  text_eq_refl, arith,
}
use local_coding_agent_harne.Security.Redaction.{
  Piece, SecretLibrary, Value, Values, Fields, redacted_mark, redact_secret, redact_secrets,
  replace_assignment, substitute, redact_with_count, redact_value, redact_values, redact_fields,
}

-- The value is the mark, if it is a text.
abbrev pub is_marked : Value → Bool
is_marked (Value.str t) = text_eq t redacted_mark
is_marked _ = true

module _ (library : SecretLibrary) where
  -- Every text that is itself the value of a sensitive key is the mark, at every depth.
  unfoldable mutual
    pub is_hidden : Value → Bool
    is_hidden (Value.str t) = true
    is_hidden (Value.list values) = are_hidden values
    is_hidden (Value.tuple values) = are_hidden values
    is_hidden (Value.dict fields) = fields_hidden fields
    is_hidden (Value.other n) = true

    pub are_hidden : Values → Bool
    are_hidden Values.no_items = true
    are_hidden (Values.item v values) = is_hidden v && are_hidden values

    pub fields_hidden : Fields → Bool
    fields_hidden Fields.no_fields = true
    fields_hidden (Fields.field key v fields) =
        (not (library.is_sensitive key) || is_marked v) && is_hidden v && fields_hidden fields

  mutual
    unfolding redact_value redact_values redact_fields is_hidden are_hidden fields_hidden

    value-hidden :
        (secrets : List Text) (v : Value) → is_hidden (redact_value library secrets v) ≡ true
    value-hidden secrets (Value.str t) = refl
    value-hidden secrets (Value.list values) = values-hidden secrets values
    value-hidden secrets (Value.tuple values) = values-hidden secrets values
    value-hidden secrets (Value.dict fields) = fields-hidden secrets fields
    value-hidden secrets (Value.other n) = refl

    values-hidden :
        (secrets : List Text) (values : Values)
        → are_hidden (redact_values library secrets values) ≡ true
    values-hidden secrets Values.no_items = refl
    values-hidden secrets (Values.item v values) =
        ground (arith, value-hidden secrets v, values-hidden secrets values)

    fields-hidden :
        (secrets : List Text) (fields : Fields)
        → fields_hidden (redact_fields library secrets fields) ≡ true
    fields-hidden secrets Fields.no_fields = refl
    fields-hidden secrets (Fields.field key (Value.str t) fields) =
        ground (arith, fields-hidden secrets fields, text_eq_refl redacted_mark)
    fields-hidden secrets (Fields.field key (Value.list values) fields) =
        ground (arith, values-hidden secrets values, fields-hidden secrets fields)
    fields-hidden secrets (Fields.field key (Value.tuple values) fields) =
        ground (arith, values-hidden secrets values, fields-hidden secrets fields)
    fields-hidden secrets (Fields.field key (Value.dict inner) fields) =
        ground (arith, fields-hidden secrets inner, fields-hidden secrets fields)
    fields-hidden secrets (Fields.field key (Value.other n) fields) =
        ground (arith, fields-hidden secrets fields)

-- The text that the pieces of a text are cut from.
unfoldable pub glue_pieces : List Piece → Text
glue_pieces [] = []
glue_pieces (Piece.between part ∷ pieces) = part ++ glue_pieces pieces
glue_pieces (Piece.assignment name value ∷ pieces) = (name ++ value) ++ glue_pieces pieces

replace_assignment-none :
    (name value : Text)
    → (replace_assignment name value).1 ≡ 0
    → (replace_assignment name value).0 ≡ name ++ value
replace_assignment-none name value h = ground arith

substitute-none :
    (pieces : List Piece) → (substitute pieces).1 ≡ 0 → (substitute pieces).0 ≡ glue_pieces pieces
unfolding substitute glue_pieces
substitute-none [] h = refl
substitute-none (Piece.between part ∷ pieces) h =
    ap (λ rest. part ++ rest) (substitute-none pieces h)
substitute-none (Piece.assignment name value ∷ pieces) h =
    let k : (replace_assignment name value).1 ≡ 0 = omega arith in
    let n : (substitute pieces).1 ≡ 0 = omega arith in
    ap (λ part. part ++ (substitute pieces).0) (replace_assignment-none name value k)
    ∙ ap (λ rest. (name ++ value) ++ rest) (substitute-none pieces n)

redact_secret-grows : (secret : Text) (state : Text × ℕ) → state.1 ≤ (redact_secret secret state).1
redact_secret-grows secret (text, n) = ground arith

redact_secret-same :
    (secret : Text) (state : Text × ℕ)
    → (redact_secret secret state).1 ≡ state.1
    → redact_secret secret state ≡ state
redact_secret-same secret (text, n) h = ground arith

redact_secrets-grows :
    (secrets : List Text) (state : Text × ℕ) → state.1 ≤ (redact_secrets secrets state).1
unfolding redact_secrets
redact_secrets-grows [] state = omega arith
redact_secrets-grows (secret ∷ secrets) state =
    let s = redact_secret-grows secret state in
    let r = redact_secrets-grows secrets (redact_secret secret state) in omega arith

redact_secrets-same :
    (secrets : List Text) (state : Text × ℕ)
    → (redact_secrets secrets state).1 ≡ state.1
    → redact_secrets secrets state ≡ state
unfolding redact_secrets
redact_secrets-same [] state h = refl
redact_secrets-same (secret ∷ secrets) state h =
    let next = redact_secret secret state in
    let s = redact_secret-grows secret state in
    let r = redact_secrets-grows secrets next in
    let e : next.1 ≡ state.1 = omega arith in
    let f : (redact_secrets secrets next).1 ≡ next.1 = omega arith in
    redact_secrets-same secrets next f ∙ redact_secret-same secret state e

-- A text for which no replacement is counted is as it was, where the pieces of a text glue to it
-- again.
pub redact_with_count-none :
    (library : SecretLibrary) (secrets : List Text)
    → ((text : Text) → glue_pieces (library.pieces text) ≡ text)
    → (text : Text) → (redact_with_count library secrets text).1 ≡ 0
    → (redact_with_count library secrets text).0 ≡ text
unfolding redact_with_count
redact_with_count-none library secrets glue text h =
    let state = redact_secrets secrets (text, 0) in
    let n : state.1 ≡ 0 = omega arith in
    let k : (substitute (library.pieces (state.0))).1 ≡ 0 = omega arith in
    substitute-none (library.pieces (state.0)) k
    ∙ glue (state.0)
    ∙ ap (λ (s : Text × ℕ). s.0) (redact_secrets-same secrets (text, 0) n)

-- In a redacted value every text that is itself the value of a key that looks like that of a secret
-- is the mark, at every depth. Of a list, a tuple or a dict under such a key this says nothing more
-- than of any other.
pub redact_value-is_hidden :
    (library : SecretLibrary) (secrets : List Text) (v : Value)
    → is_hidden library (redact_value library secrets v) ≡ true
redact_value-is_hidden library secrets v = value-hidden library secrets v
