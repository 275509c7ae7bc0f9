-- ===== src/Samples/Environments.antt =====
-- The theorems on secrets, on an environment and a value with a token.
use local_coding_agent_harne.Prelude.{
  ◌≡◌, true, ◌∷◌, [], some, codes, text_eq, contains, is_infix, is_prefix,
}
use local_coding_agent_harne.Plan.Models.{Ledger, lookup}
use local_coding_agent_harne.Security.Environment.{NameLibrary, build}
use local_coding_agent_harne.Security.Environment.Built.{lookup-build}
use local_coding_agent_harne.Security.Redaction.{
  SecretLibrary, Value, Values, Fields, Piece, redact_value,
}
use local_coding_agent_harne.Security.Redaction.Hidden.{is_hidden, redact_value-is_hidden}

-- Names that contain "TOKEN" are sensitive.
abbrev names : NameLibrary
names = record { upper = λ name. name; is_sensitive = λ name. is_infix (codes "TOKEN") name }

abbrev values : Ledger
values = (codes "PATH", codes "p") ∷ (codes "MY_TOKEN", codes "t") ∷ []

lookup-build_example :
    lookup (codes "PATH") (build names (codes "MY_TOKEN" ∷ []) values) ≡ some (codes "p")
unfolding lookup text_eq contains is_infix is_prefix
lookup-build_example = lookup-build names (codes "MY_TOKEN" ∷ []) values (codes "PATH")

abbrev secrets : SecretLibrary
secrets = record {
  is_sensitive = λ name. is_infix (codes "TOKEN") name;
  pieces = λ text. Piece.between text ∷ [];
  listed_set = λ texts. texts;
}

-- A list with a field whose key is sensitive.
abbrev metadata : Value
metadata = Value.list (
    Values.item
      (Value.dict (Fields.field (codes "MY_TOKEN") (Value.str (codes "t")) Fields.no_fields))
      Values.no_items)

redact_value-is_hidden_example :
    is_hidden secrets (redact_value secrets (codes "secret_one" ∷ []) metadata) ≡ true
redact_value-is_hidden_example = redact_value-is_hidden secrets (codes "secret_one" ∷ []) metadata
