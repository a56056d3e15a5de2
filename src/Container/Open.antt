-- ===== src/Container/Open.antt =====
-- src/context_store.rs: `create`, `open` and `verify`.
use subnext.Prelude.{
  ℕ, ◌+◌, Bool, true, false, not, ◌&&◌, Option, none, some, List, [], ◌∷◌, ◌++◌, map, length,
  Ordering, compare, ltb, ◌==◌, if◌then◌else◌,
}
use subnext.Prelude
use subnext.Prelude.Bytes.{codes, bytes_eq, sort_by}
use subnext.Prelude.Dict.{Dict, get}
use subnext.Prelude.BTree.{put}
use subnext.Prelude.Results.{Result, ok, err, ok_or, ◌>>=◌, ◌>>◌, guard}
use subnext.Hash.Stream.{sha256}
use subnext.Hash.Hex.{to_hex}
use subnext.Merkle
use subnext.Merkle.{empty_root}
use subnext.Json.{Json}
use subnext.Trust.{
  unsigned, is_nil, Verifier, default_policy, policy_hash, schema_hash, schema_mismatch,
}
use subnext.Container.{
  Host, ContextError, io_error, parse_error, refused, immutable, rollback, chain_broken,
  format_version_now, ObjectMeta, Checkpoint, Manifest,
}
use subnext.Container.Format.{
  text_field, meta_of, checkpoint_of, signing_bytes, key_parse, or_default,
}
use subnext.Container.Front.{manifest_of, read_json}
use subnext.Container.Disk.{
  Disk, ContextStore, Machine, object_location, unhex, write_manifest, write_hwm, read_hwm,
  generation_name,
}
use subnext.Container.Chain.{verify_chain}
use subnext.Container.Store.{tree}
use subnext.Container.Commit.{last_of}

-- `signing_key_id.is_some()`
abbrev pub is_some {ℓ} : {A : Type ℓ} → Option A → Bool
is_some none = false
is_some (some a) = true

abbrev by_generation : Checkpoint → Checkpoint → Ordering
by_generation c d = compare c.generation d.generation

-- The newest checkpoint is the one that the manifest names.
abbrev is_current : Option Checkpoint → ℕ → Bool
is_current none highest = true
is_current (some c) highest = c.generation == highest

abbrev generation_of : Option Checkpoint → ℕ
generation_of none = 0
generation_of (some c) = c.generation

unfoldable pub new_store : List ℕ → ContextStore
unfolding default_policy policy_hash schema_hash
new_store agent_id = record {
  manifest = record {
    format_version = format_version_now;
    agent_id = agent_id;
    root_hash = empty_root;
    highest_generation = 0;
    encryption_key_id = none;
    signing_key_id = none;
    signing_is_cryptographic = false;
    schema_hash = schema_hash;
    policy_hash = policy_hash default_policy;
    created_at = 0;
  };
  objects = [];
  checkpoints = [];
  pending = [];
  replicas = [];
  policy = default_policy;
}

pub record VerifyReport : Type 0 where
  pub objects_checked : ℕ
  pub objects_failed : List (List ℕ)
  pub checkpoints_checked : ℕ
  pub chain_intact : Bool
  pub root_matches : Bool
  pub signatures_checked : ℕ
  pub signatures_failed : List ℕ
  pub quarantined : ℕ

unfoldable report_ok : VerifyReport → Bool
report_ok r =
    is_nil r.objects_failed && (r.chain_intact && (r.root_matches && is_nil r.signatures_failed))

-- The guard of the match on a file's bytes.
abbrev is_good : ObjectMeta → List ℕ → Option (List ℕ) → Bool
is_good meta id none = false
is_good meta id (some bytes) = bytes_eq (sha256 bytes) meta.hash && bytes_eq (to_hex meta.hash) id

failed_objects : Disk → Dict ObjectMeta → List (List ℕ)
unfolding get
failed_objects disk [] = []
failed_objects disk ((id, meta) ∷ rest) =
    let later = failed_objects disk rest in
    if is_good meta id (get disk.object_files id) then later else id ∷ later

abbrev pub is_ok {ℓ κ} : {E : Type ℓ} {A : Type κ} → Result E A → Bool
is_ok (ok a) = true
is_ok (err e) = false

module _ (host : Host) where
  unfoldable pub create : List ℕ → Disk → Result ContextError Machine
  unfolding new_store write_manifest write_hwm
  create agent_id disk = do
    guard (not (is_some disk.manifest_file)) (immutable [])
    ok (record {
      store = new_store agent_id;
      disk = write_hwm host 0 (write_manifest host (new_store agent_id).manifest disk);
    })

  -- The sidecar of an object, or what is rebuilt from the object's bytes.
  sidecar_of : ℕ → List ℕ → List ℕ → Option (List ℕ) → Result ContextError ObjectMeta
  unfolding object_location read_json meta_of
  sidecar_of highest id bytes none = ok (record {
    hash = sha256 bytes;
    size = length bytes;
    generation = highest;
    verification = unsigned;
    locations = object_location id ∷ [];
  })
  sidecar_of highest id bytes (some sidecar) = do
    value ← read_json host sidecar
    ok_or (meta_of host value) parse_error

  -- The loop of `open` over the objects.
  load_objects : Disk → ℕ → Dict (List ℕ) → Dict ObjectMeta → Result ContextError (Dict ObjectMeta)
  unfolding get put sidecar_of
  load_objects disk highest [] objects = ok objects
  load_objects disk highest ((id, bytes) ∷ rest) objects =
      sidecar_of highest id bytes (get disk.sidecars id) >>= λ meta.
      load_objects disk highest rest (put objects id meta)

  -- The loop over the files of the checkpoints.
  load_checkpoints : Dict (List ℕ) → Result ContextError (List Checkpoint)
  unfolding read_json checkpoint_of
  load_checkpoints [] = ok []
  load_checkpoints ((name, bytes) ∷ rest) = do
    value ← read_json host bytes
    c ← ok_or (checkpoint_of host value) parse_error
    later ← load_checkpoints rest
    ok (c ∷ later)

  abbrev opened : Manifest → Dict ObjectMeta → List Checkpoint → ContextStore
  opened manifest objects checkpoints = record {
    manifest = manifest;
    objects = objects;
    checkpoints = checkpoints;
    pending = [];
    replicas = [];
    policy = record default_policy {
      generation_ceiling = manifest.highest_generation;
      require_signature = is_some manifest.signing_key_id;
    };
  }

  -- `open`
  unfoldable pub open_store : Disk → Result ContextError ContextStore
  unfolding read_json manifest_of read_hwm load_objects load_checkpoints verify_chain sort_by
      schema_hash default_policy
  open_store disk = do
    bytes ← ok_or disk.manifest_file io_error
    value ← read_json host bytes
    manifest ← manifest_of host value
    guard (not (ltb format_version_now manifest.format_version)) parse_error
    guard (bytes_eq manifest.schema_hash schema_hash)
        (refused (codes "manifest") (schema_mismatch schema_hash manifest.schema_hash))
    hwm ← read_hwm host disk
    guard (not (ltb manifest.highest_generation hwm)) (rollback manifest.highest_generation hwm)
    objects ← load_objects disk manifest.highest_generation disk.object_files []
    loaded ← load_checkpoints disk.checkpoint_files
    verify_chain host (sort_by by_generation loaded)
    guard (is_current (last_of (sort_by by_generation loaded)) manifest.highest_generation)
        (chain_broken (generation_of (last_of (sort_by by_generation loaded))))
    ok (opened manifest objects (sort_by by_generation loaded))

  -- The test of one signature record.
  signature_ok : Verifier → Checkpoint → Json → Option Bool
  unfolding text_field key_parse unhex signing_bytes
  signature_ok verifier c value = Prelude.◌>>=◌ (text_field value (codes "key")) λ key_text'.
      Prelude.◌>>=◌ (key_parse key_text') λ key.
        Prelude.◌>>=◌ (text_field value (codes "signature")) λ text.
          Prelude.◌>>=◌ (unhex text) λ signature.
            some (
              not (verifier.is_revoked key) && verifier.verify key (signing_bytes host c) signature)

  abbrev read_ok : Verifier → Checkpoint → Result ContextError Json → Bool
  read_ok verifier c (err e) = false
  read_ok verifier c (ok value) = or_default (signature_ok verifier c value) false

  -- The loop over the checkpoints: the signatures that were checked, and the generations that failed.
  check_signatures : Verifier → Disk → List Checkpoint → ℕ × List ℕ
  unfolding get generation_name read_json signature_ok
  check_signatures verifier disk [] = (0, [])
  check_signatures verifier disk (c ∷ rest) =
      let later = check_signatures verifier disk rest in
      elim (get disk.signatures (generation_name c.generation)) [
        | none ↦ later
        | some bytes ↦ (
          later.0 + 1,
          (if read_ok verifier c (read_json host bytes) then later.1 else c.generation ∷ later.1),
        )
      ]

  abbrev signatures_of : Option Verifier → Disk → List Checkpoint → ℕ × List ℕ
  signatures_of none disk cs = (0, [])
  signatures_of (some verifier) disk cs = check_signatures verifier disk cs

  -- `verify`
  unfoldable verify_store : Machine → Option Verifier → VerifyReport
  unfolding failed_objects verify_chain tree check_signatures
  verify_store m verifier = record {
    objects_checked = length m.store.objects;
    objects_failed = failed_objects m.disk m.store.objects;
    checkpoints_checked = length m.store.checkpoints;
    chain_intact = is_ok (verify_chain host m.store.checkpoints);
    root_matches = bytes_eq (Merkle.root (tree m.store)) m.store.manifest.root_hash;
    signatures_checked = (signatures_of verifier m.disk m.store.checkpoints).0;
    signatures_failed = (signatures_of verifier m.disk m.store.checkpoints).1;
    quarantined = length m.disk.reasons;
  }
