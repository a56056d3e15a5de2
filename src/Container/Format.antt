-- ===== src/Container/Format.antt =====
-- src/context_store.rs: the JSON of objects, sidecars, checkpoints and the manifest.
use subnext.Prelude.{
  ℕ, Bool, false, Option, none, some, List, [], ◌∷◌, ◌++◌, length, replicate, max, ◌>>=◌, ◌==◌,
  if◌then◌else◌,
}
use subnext.Prelude.Bytes.{codes, bytes_eq}
use subnext.Json.{
  Json, boolean, num, str, arr, obj, Items, nil, cons, Pairs, end, pair, get, as_str, as_f64,
  as_bool, string_list,
}
use subnext.Json.Canonical.{write_canonical}
use subnext.Hash.Stream.{sha256}
use subnext.Hash.Hex.{to_hex, parse_hex}
use subnext.Hash.Tagged.{tagged}
use subnext.Trust.{
  unsigned, verification_as_str, verification_parse, label_as_str, KeyId, role_parse,
  schema_version,
}
use subnext.Container.{Host, kind_as_str, ObjectRecord, ObjectMeta, Checkpoint}

abbrev pub pairs : List (List ℕ × Json) → Pairs
pairs [] = end
pairs ((k, v) ∷ rest) = pair k v (pairs rest)

abbrev string_items : List (List ℕ) → Items
string_items [] = nil
string_items (s ∷ rest) = cons (str s) (string_items rest)

-- `Digest::default()`
abbrev pub zero_digest : List ℕ
zero_digest = replicate 32 0

abbrev pub or_default {ℓ} : {A : Type ℓ} → Option A → A → A
or_default none a = a
or_default (some b) a = b

-- `text.split_once(':')`
split_once : ℕ → List ℕ → Option (List ℕ × List ℕ)
split_once mark [] = none
split_once mark (c ∷ text) =
    let rest = split_once mark text in
    if c == mark then some ([], text) else (do parts ← rest; some (c ∷ parts.0, parts.1))

unfoldable pub key_parse : List ℕ → Option KeyId
unfolding split_once
key_parse text = do
  parts ← split_once b':' text
  role ← role_parse parts.0
  some (record { role = role; id = parts.1 })

-- The text of a field, and a field that is the hex of a digest.
unfoldable pub text_field : Json → List ℕ → Option (List ℕ)
unfolding get as_str
text_field value name = do v ← get value name; as_str v

unfoldable pub digest_field : Json → List ℕ → Option (List ℕ)
unfolding text_field
digest_field value name = do text ← text_field value name; parse_hex text

abbrev pub list_field : Json → List ℕ → List (List ℕ)
list_field value name = or_default (do v ← get value name; some (string_list v)) []

abbrev pub flag_field : Json → List ℕ → Bool
flag_field value name = or_default (do v ← get value name; as_bool v) false

module _ (host : Host) where
  -- `Json::num(n as f64)`
  abbrev pub number : ℕ → Json
  number n = num (host.of_u64 n)

  -- `Json::as_u64` of a field
  unfoldable pub u64_field : Json → List ℕ → Option ℕ
  unfolding get as_f64
  u64_field value name = do v ← get value name; n ← as_f64 v; some (host.to_u64 n)

  record_json : ObjectRecord → Json
  record_json r = obj (
      pairs (
        (codes "schema", str schema_version)
        ∷ (codes "kind", str (kind_as_str r.kind))
        ∷ (codes "logical_id", str r.logical_id)
        ∷ (codes "label", str (label_as_str r.label))
        ∷ (codes "derived", boolean r.derived)
        ∷ (codes "source_objects", arr (string_items r.source_objects))
        ∷ (codes "created_by", str r.created_by)
        ∷ (codes "body", r.body)
        ∷ []))

  unfoldable pub canonical_bytes : ObjectRecord → List ℕ
  unfolding record_json
  canonical_bytes r = host.encode (write_canonical host.floats (record_json r))

  unfoldable pub content_hash : ObjectRecord → List ℕ
  unfolding canonical_bytes
  content_hash r = sha256 (canonical_bytes r)

  unfoldable object_id_of : ObjectRecord → List ℕ
  unfolding content_hash
  object_id_of r = to_hex (content_hash r)

  unfoldable pub meta_json : ObjectMeta → Json
  meta_json m = obj (
      pairs (
        (codes "hash", str (to_hex m.hash))
        ∷ (codes "size", number m.size)
        ∷ (codes "generation", number m.generation)
        ∷ (codes "verification", str (verification_as_str m.verification))
        ∷ (codes "replicas", number (max (length m.locations) 1))
        ∷ (codes "locations", arr (string_items m.locations))
        ∷ []))

  unfoldable pub meta_of : Json → Option ObjectMeta
  unfolding digest_field u64_field text_field
  meta_of value = do
    hash ← digest_field value (codes "hash")
    some (record {
      hash = hash;
      size = or_default (u64_field value (codes "size")) 0;
      generation = or_default (u64_field value (codes "generation")) 0;
      verification =
          or_default (do text ← text_field value (codes "verification"); verification_parse text)
            unsigned;
      locations = list_field value (codes "locations");
    })

  unfoldable pub body_fields : Checkpoint → List (List ℕ × Json)
  body_fields c =
      (codes "schema", str c.schema)
      ∷ (codes "generation", number c.generation)
      ∷ (codes "merkle_root", str (to_hex c.merkle_root))
      ∷ (codes "parent_root", str (to_hex c.parent_root))
      ∷ (codes "parent_chain", str (to_hex c.parent_chain))
      ∷ (codes "timestamp", number c.timestamp)
      ∷ (codes "policy_hash", str (to_hex c.policy_hash))
      ∷ (codes "schema_hash", str (to_hex c.schema_hash))
      ∷ (codes "object_count", number c.object_count)
      ∷ (codes "added", arr (string_items c.added))
      ∷ []

  unfoldable pub body_json : Checkpoint → Json
  unfolding body_fields
  body_json c = obj (pairs (body_fields c))

  unfoldable pub checkpoint_json : Checkpoint → Json
  unfolding body_fields
  checkpoint_json c = obj (pairs (body_fields c ++ ((codes "chain", str (to_hex c.chain)) ∷ [])))

  unfoldable pub signing_bytes : Checkpoint → List ℕ
  unfolding checkpoint_json
  signing_bytes c = host.encode (write_canonical host.floats (checkpoint_json c))

  -- The bytes of the body that the chain digest covers.
  unfoldable pub body_bytes : Checkpoint → List ℕ
  unfolding body_json
  body_bytes c = host.encode (write_canonical host.floats (body_json c))

  unfoldable pub compute_chain : Checkpoint → List ℕ
  unfolding body_bytes
  compute_chain c = tagged (codes "dcr:chain") (c.parent_chain ∷ body_bytes c ∷ [])

  unfoldable pub checkpoint_of : Json → Option Checkpoint
  unfolding digest_field text_field u64_field
  checkpoint_of value = do
    schema ← text_field value (codes "schema")
    implemented ← if bytes_eq schema schema_version then some schema else none
    generation ← u64_field value (codes "generation")
    merkle_root ← digest_field value (codes "merkle_root")
    parent_root ← digest_field value (codes "parent_root")
    chain ← digest_field value (codes "chain")
    parent_chain ← digest_field value (codes "parent_chain")
    policy_hash ← digest_field value (codes "policy_hash")
    schema_hash ← digest_field value (codes "schema_hash")
    some (record {
      schema = implemented;
      generation = generation;
      merkle_root = merkle_root;
      parent_root = parent_root;
      chain = chain;
      parent_chain = parent_chain;
      timestamp = or_default (u64_field value (codes "timestamp")) 0;
      policy_hash = policy_hash;
      schema_hash = schema_hash;
      object_count = or_default (u64_field value (codes "object_count")) 0;
      added = list_field value (codes "added");
    })
