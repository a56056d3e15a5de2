-- ===== src/Container/Front.antt =====
-- src/context_store.rs: objects and the manifest as they are read back.
use subnext.Prelude.{ℕ, Bool, true, false, Option, none, some, List, [], ◌∷◌, ◌++◌}
use subnext.Prelude
use subnext.Prelude.Bytes.{codes}
use subnext.Prelude.Results.{Result, ok, err, ok_or, ◌>>=◌}
use subnext.Json.{Json, null, boolean, str, obj, get, as_str}
use subnext.Json.Read
use subnext.Hash.Hex.{to_hex}
use subnext.Trust.{label_parse, KeyId, key_text, schema_version}
use subnext.Container.{
  Host, ContextError, io_error, parse_error, kind_parse, ObjectRecord, Manifest,
}
use subnext.Container.Format.{
  pairs, zero_digest, or_default, key_parse, text_field, digest_field, list_field, flag_field,
  number, u64_field,
}

-- `field(name)?`, and its text
abbrev field_of : Json → List ℕ → Result ContextError Json
field_of value name = ok_or (get value name) parse_error

abbrev text_or_empty : Json → List ℕ
text_or_empty v = or_default (as_str v) []

unfoldable pub record_of : Json → Result ContextError ObjectRecord
unfolding get as_str text_field
record_of value = do
  kind_field ← field_of value (codes "kind")
  kind ← ok_or (kind_parse (text_or_empty kind_field)) parse_error
  logical_id ← field_of value (codes "logical_id")
  label_field ← field_of value (codes "label")
  label ← ok_or (label_parse (text_or_empty label_field)) parse_error
  body ← field_of value (codes "body")
  ok (record {
    kind = kind;
    logical_id = text_or_empty logical_id;
    generation = 0;
    label = label;
    derived = flag_field value (codes "derived");
    source_objects = list_field value (codes "source_objects");
    created_by = or_default (text_field value (codes "created_by")) [];
    body = body;
  })

abbrev key_json : Option KeyId → Json
key_json none = null
key_json (some key) = str (key_text key)

key_field : Json → List ℕ → Option KeyId
unfolding text_field
key_field value name = Prelude.◌>>=◌ (text_field value name) (λ text. key_parse text)

-- `map_err(ContextError::Parse)`
abbrev parsed : Read.Result Json → Result ContextError Json
parsed (Read.ok v) = ok v
parsed (Read.err e) = err parse_error

module _ (host : Host) where
  unfoldable pub manifest_json : Manifest → Json
  manifest_json m = obj (
      pairs (
        (codes "format_version", number host m.format_version)
        ∷ (codes "schema", str schema_version)
        ∷ (codes "agent_id", str m.agent_id)
        ∷ (codes "root_hash", str (to_hex m.root_hash))
        ∷ (codes "highest_generation", number host m.highest_generation)
        ∷ (codes "encryption_key_id", key_json m.encryption_key_id)
        ∷ (codes "signing_key_id", key_json m.signing_key_id)
        ∷ (codes "signing_is_cryptographic", boolean m.signing_is_cryptographic)
        ∷ (codes "schema_hash", str (to_hex m.schema_hash))
        ∷ (codes "policy_hash", str (to_hex m.policy_hash))
        ∷ (codes "created_at", number host m.created_at)
        ∷ []))

  unfoldable pub manifest_of : Json → Result ContextError Manifest
  unfolding text_field digest_field u64_field key_field
  manifest_of value = do
    format_version ← ok_or (u64_field host value (codes "format_version")) parse_error
    root_hash ← ok_or (digest_field value (codes "root_hash")) parse_error
    schema_hash ← ok_or (digest_field value (codes "schema_hash")) parse_error
    ok (record {
      format_version = format_version;
      agent_id = or_default (text_field value (codes "agent_id")) [];
      root_hash = root_hash;
      highest_generation = or_default (u64_field host value (codes "highest_generation")) 0;
      encryption_key_id = key_field value (codes "encryption_key_id");
      signing_key_id = key_field value (codes "signing_key_id");
      signing_is_cryptographic = flag_field value (codes "signing_is_cryptographic");
      schema_hash = schema_hash;
      policy_hash = or_default (digest_field value (codes "policy_hash")) zero_digest;
      created_at = or_default (u64_field host value (codes "created_at")) 0;
    })

  unfoldable pub parse_bytes : List ℕ → Result ContextError Json
  unfolding Read.parse
  parse_bytes bytes = do
    text ← ok_or (host.decode bytes) parse_error
    parsed (Read.parse host.floats text)

  -- `read_json` of a file's bytes: `read_to_string` refuses what is not UTF-8.
  unfoldable pub read_json : List ℕ → Result ContextError Json
  unfolding Read.parse
  read_json bytes = do
    text ← ok_or (host.decode bytes) io_error
    parsed (Read.parse host.floats text)
