-- ===== src/Container/Store.antt =====
-- src/context_store.rs: writing, reading, restoring and quarantining objects, and `commit`. An operation
-- gives its result and the store and files that it leaves, also where it fails.
use subnext.Prelude.{
  ℕ, ◌+◌, Bool, false, ◌&&◌, Option, none, some, List, [], ◌∷◌, ◌++◌, map, length, if◌then◌else◌,
}
use subnext.Prelude.Bytes.{codes, bytes_eq}
use subnext.Prelude.Dict.{get}
use subnext.Prelude.BTree.{put, remove}
use subnext.Prelude.Results.{Result, ok, err, ◌>>=◌, ◌>>◌, guard}
use subnext.Json.{str, obj}
use subnext.Hash.Stream.{sha256}
use subnext.Hash.Hex.{to_hex}
use subnext.Merkle
use subnext.Merkle.{MerkleTree, build, Step, verify_proof, empty_root}
use subnext.Trust
use subnext.Trust.{
  unsigned, verified, quarantined, verification_as_str, Signer, Verifier, KeyId, key_text,
  is_context_signing, policy_hash, schema_version, schema_hash, Candidate, Admitted,
  provenance_missing, signature_invalid, is_nil,
}
use subnext.Container.{Host, ContextError, corrupt, refused, immutable, ObjectRecord, ObjectMeta}
use subnext.Container.Format.{pairs, number, canonical_bytes, content_hash}
use subnext.Container.Front.{record_of, parse_bytes}
use subnext.Container.Disk.{
  Disk, ContextStore, Machine, object_location, replica_location, write_copies, read_object_bytes,
  json_bytes, write_sidecar,
}

-- `len` of a text that may be empty
abbrev filled : List ℕ → List ℕ → List ℕ
filled [] agent = agent
filled (c ∷ s) agent = c ∷ s

-- The record as `put` stamps it.
abbrev pub stamped : ContextStore → ObjectRecord → ObjectRecord
stamped s r = record r {
  generation = s.manifest.highest_generation + 1;
  created_by = filled r.created_by s.manifest.agent_id;
}

-- The generation of an object's sidecar, or what stands for it.
abbrev generation_or : Option ObjectMeta → ℕ → ℕ
generation_or none g = g
generation_or (some m) g = m.generation

abbrev digest_or : Option ObjectMeta → List ℕ → List ℕ
digest_or none d = d
digest_or (some m) d = m.hash

unfoldable pub tree : ContextStore → MerkleTree
tree s = build (map (λ (e : List ℕ × ObjectMeta). (e.0, e.1.hash)) s.objects)

store_proof : ContextStore → List ℕ → Option (List Step)
unfolding tree
store_proof s id = Merkle.proof (tree s) id

unfoldable pub proves : ContextStore → List ℕ → List ℕ → Bool
unfolding store_proof
proves s id content = elim (store_proof s id) [
  | none ↦ false
  | some steps ↦ verify_proof id content steps s.manifest.root_hash
]

-- `add_replica`
abbrev pub add_replica : Machine → List ℕ → Machine
add_replica m path = record m {
  store = record m.store { replicas = m.store.replicas ++ (path ∷ []) };
}

module _ (host : Host) where
  -- The end of `put`: the bytes go to the store and to every replica, then the sidecar is written.
  unfoldable pub write_object : Machine → ℕ → List ℕ → List ℕ → List ℕ → Machine
  unfolding put write_copies object_location write_sidecar
  write_object m generation hash id bytes =
      let disk = record m.disk { object_files = put m.disk.object_files id bytes } in
      let meta : ObjectMeta = record {
        hash = hash;
        size = length bytes;
        generation = generation;
        verification = unsigned;
        locations =
            object_location id ∷ map (λ replica. replica_location replica id) m.store.replicas;
      } in
      record {
        store = record m.store {
          objects = put m.store.objects id meta;
          pending = put m.store.pending id tt;
        };
        disk = write_sidecar host id meta (write_copies m.store.replicas id bytes disk);
      }

  -- An object that is there: its digest is compared.
  abbrev pub put_existing :
      Option ObjectMeta
      → Machine
      → Machine
      → List ℕ
      → List ℕ
      → Result ContextError (List ℕ) × Machine
  put_existing none m written hash id = (ok id, written)
  put_existing (some existing) m written hash id =
      if bytes_eq existing.hash hash then (ok id, m) else (err (immutable id), m)

  unfoldable pub put_record : Machine → ObjectRecord → Result ContextError (List ℕ) × Machine
  unfolding write_object get canonical_bytes
  put_record m r =
      let r' = stamped m.store r in
      let bytes = canonical_bytes host r' in
      let hash = sha256 bytes in
      let id = to_hex hash in
      let written = write_object m r'.generation hash id bytes in
      if r'.derived && is_nil r'.source_objects
      then (err (refused r'.logical_id provenance_missing), m)
      else put_existing (get m.store.objects id) m written hash id

  -- A record that was read, with the generation of its sidecar.
  pub dated : Machine → List ℕ → ObjectRecord → ObjectRecord
  unfolding get
  dated m id r = record r { generation = generation_or (get m.store.objects id) 0 }

  -- `get`
  unfoldable get_record : Machine → List ℕ → Result ContextError ObjectRecord
  unfolding read_object_bytes parse_bytes record_of content_hash dated
  get_record m id = do
    bytes ← read_object_bytes m.disk id
    value ← parse_bytes host bytes
    r ← record_of value
    guard (bytes_eq (to_hex (content_hash host (dated m id r))) id) (corrupt id)
    ok (dated m id r)

  -- The candidate that `admit` offers to the gateway.
  unfoldable pub candidate_of : Machine → List ℕ → List ℕ → ObjectRecord → Candidate
  unfolding get schema_hash
  candidate_of m id bytes r = record {
    object_id = id;
    bytes = bytes;
    declared_hash = digest_or (get m.store.objects id) (sha256 bytes);
    generation = r.generation;
    schema_hash = schema_hash;
    label = r.label;
    signature = none;
    signing_key = none;
    source_objects = r.source_objects;
    derived = r.derived;
  }

  abbrev pub refusal {ℓ} : {A : Type ℓ} → List ℕ → Result Trust.Rejection A → Result ContextError A
  refusal id (ok a) = ok a
  refusal id (err rejection) = err (refused id rejection)

  -- `admit`
  unfoldable pub admit_object :
      Machine → List ℕ → Option Verifier → Result ContextError (ObjectRecord × Admitted)
  unfolding read_object_bytes parse_bytes record_of Trust.admit dated candidate_of
  admit_object m id verifier = do
    bytes ← read_object_bytes m.disk id
    value ← parse_bytes host bytes
    r ← record_of value
    admitted ← refusal id (
        Trust.admit (record { policy = m.store.policy; verifier = verifier })
          (candidate_of m id bytes (dated m id r)))
    ok (dated m id r, admitted)

  unfoldable pub restore_object :
      Machine → List ℕ → List ℕ → Result ContextError (Unit {0}) × Machine
  unfolding get put object_location write_sidecar
  restore_object m id bytes =
      let hash = sha256 bytes in
      let meta : ObjectMeta = record {
        hash = hash;
        size = length bytes;
        generation = generation_or (get m.store.objects id) m.store.manifest.highest_generation;
        verification = verified;
        locations = object_location id ∷ [];
      } in
      let disk = record m.disk { object_files = put m.disk.object_files id bytes } in
      if bytes_eq (to_hex hash) id
      then (
        ok tt,
        record {
          store = record m.store { objects = put m.store.objects id meta };
          disk = write_sidecar host id meta disk;
        },
      )
      else (err (corrupt id), m)

  -- The record of a quarantined object, for an operator.
  quarantine_reason : Machine → List ℕ → List ℕ → List ℕ
  unfolding json_bytes
  quarantine_reason m id reason = json_bytes host (
      obj (
        pairs (
          (codes "object_id", str id)
          ∷ (codes "reason", str reason)
          ∷ (codes "generation", number host m.store.manifest.highest_generation)
          ∷ (codes "state", str (verification_as_str quarantined))
          ∷ [])))

  -- The files that a quarantine leaves, where the object is there and where it is not.
  abbrev pub move_aside : Disk → List ℕ → Option (List ℕ) → Disk
  move_aside disk id none = disk
  move_aside disk id (some bytes) = record disk {
    object_files = remove disk.object_files id;
    quarantine_files = put disk.quarantine_files id bytes;
  }

  -- `quarantine`, which returns the path of the file it moved.
  unfoldable pub quarantine : Machine → List ℕ → List ℕ → List ℕ × Machine
  unfolding get put remove quarantine_reason
  quarantine m id reason =
      let moved = move_aside m.disk id (get m.disk.object_files id) in
      (
        codes "quarantine/" ++ id,
        record {
          store = record m.store {
            objects = remove m.store.objects id;
            pending = remove m.store.pending id;
          };
          disk = record moved {
            sidecars = remove moved.sidecars id;
            reasons = put moved.reasons id (quarantine_reason m id reason);
          };
        },
      )
