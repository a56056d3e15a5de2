-- ===== src/Container/Commit.antt =====
-- src/context_store.rs: `commit`, which seals what was written into a new generation.
use subnext.Prelude.{
  ℕ, ◌+◌, Bool, true, false, ◌&&◌, Option, none, some, List, [], ◌∷◌, ◌++◌, length, if◌then◌else◌,
}
use subnext.Prelude.Bytes.{codes, bytes_eq}
use subnext.Prelude.BTree.{put, keys}
use subnext.Prelude.Results.{Result, ok, err}
use subnext.Json.{str, boolean, obj}
use subnext.Hash.Hex.{to_hex}
use subnext.Merkle
use subnext.Spans.Slices.{decimal}
use subnext.Trust.{
  Signer, key_text, is_context_signing, policy_hash, schema_version, schema_hash, signature_invalid,
  is_nil,
}
use subnext.Container.{Host, ContextError, refused, Checkpoint}
use subnext.Container.Format.{pairs, zero_digest, number, compute_chain, signing_bytes}
use subnext.Container.Disk.{
  Disk, ContextStore, Machine, json_bytes, write_manifest, write_hwm, write_checkpoint,
  generation_name,
}
use subnext.Container.Chain.{parent_chain_of, parent_root_of}
use subnext.Container.Store.{tree}

-- `last().cloned()`, behind what came before
abbrev pub last_from : Option Checkpoint → List Checkpoint → Option Checkpoint
last_from previous [] = previous
last_from previous (c ∷ rest) = last_from (some c) rest

abbrev pub last_of : List Checkpoint → Option Checkpoint
last_of checkpoints = last_from none checkpoints

module _ (host : Host) where
  -- The checkpoint before its chain digest is computed, which stands on everything else.
  unfoldable pub unchained : ContextStore → ℕ → Checkpoint
  unfolding tree policy_hash schema_hash keys
  unchained s timestamp = record {
    schema = schema_version;
    generation = s.manifest.highest_generation + 1;
    merkle_root = Merkle.root (tree s);
    parent_root = parent_root_of (last_of s.checkpoints);
    chain = zero_digest;
    parent_chain = parent_chain_of (last_of s.checkpoints);
    timestamp = timestamp;
    policy_hash = policy_hash s.policy;
    schema_hash = schema_hash;
    object_count = length s.objects;
    added = keys s.pending;
  }

  unfoldable pub next_checkpoint : ContextStore → ℕ → Checkpoint
  unfolding unchained compute_chain
  next_checkpoint s timestamp =
      let c = unchained s timestamp in record c { chain = compute_chain host c }

  -- The end of `commit`: the manifest and the mark are written and the checkpoint is taken over.
  unfoldable pub advance :
      ContextStore → Disk → Checkpoint → Result ContextError Checkpoint × Machine
  unfolding policy_hash write_manifest write_hwm
  advance s disk c =
      let manifest = record s.manifest {
        highest_generation = c.generation;
        root_hash = c.merkle_root;
        policy_hash = policy_hash s.policy;
      } in
      (
        ok c,
        record {
          store = record s {
            manifest = manifest;
            policy = record s.policy { generation_ceiling = c.generation };
            checkpoints = s.checkpoints ++ (c ∷ []);
            pending = [];
          };
          disk = write_hwm host c.generation (write_manifest host manifest disk);
        },
      )

  -- The record of a signature.
  unfoldable pub write_signature : Signer → Checkpoint → Disk → Disk
  unfolding put json_bytes signing_bytes generation_name
  write_signature signer c disk = record disk {
    signatures = put disk.signatures (generation_name c.generation) (
        json_bytes host (
          obj (
            pairs (
              (codes "key", str (key_text signer.key_id))
              ∷ (codes "cryptographic", boolean signer.is_cryptographic)
              ∷ (codes "generation", number host c.generation)
              ∷ (codes "signature", str (to_hex (signer.sign (signing_bytes host c))))
              ∷ []))));
  }

  -- The store behind a signature.
  abbrev signed_store : ContextStore → Signer → ContextStore
  signed_store s signer = record s {
    manifest = record s.manifest {
      signing_key_id = some signer.key_id;
      signing_is_cryptographic = signer.is_cryptographic;
    };
    policy = record s.policy { require_signature = true };
  }

  -- The part of `commit` behind the checkpoint's file.
  abbrev pub sign_and_advance :
      ContextStore → Disk → Checkpoint → Option Signer → Result ContextError Checkpoint × Machine
  sign_and_advance s disk c none = advance s disk c
  sign_and_advance s disk c (some signer) =
      if is_context_signing signer.key_id.role
      then advance (signed_store s signer) (write_signature signer c disk) c
      else (
        err (
            refused (codes "checkpoint " ++ decimal c.generation)
              (signature_invalid signer.key_id)),
        record { store = s; disk = disk },
      )

  unfoldable pub seal : Machine → ℕ → Option Signer → Result ContextError Checkpoint × Machine
  unfolding next_checkpoint advance write_signature write_checkpoint
  seal m timestamp signer =
      let c = next_checkpoint m.store timestamp in
      sign_and_advance m.store (write_checkpoint host c m.disk) c signer

  -- The checkpoint that stands where nothing was written.
  abbrev pub standing :
      Bool
      → Option Checkpoint
      → Machine
      → Result ContextError Checkpoint × Machine
      → Result ContextError Checkpoint × Machine
  standing true (some parent) m sealed = (ok parent, m)
  standing true none m sealed = sealed
  standing false parent m sealed = sealed

  unfoldable pub commit : Machine → ℕ → Option Signer → Result ContextError Checkpoint × Machine
  unfolding seal tree
  commit m timestamp signer =
      let s = m.store in
      standing (is_nil s.pending && bytes_eq (Merkle.root (tree s)) s.manifest.root_hash)
        (last_of s.checkpoints) m (seal m timestamp signer)
