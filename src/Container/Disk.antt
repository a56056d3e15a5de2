-- ===== src/Container/Disk.antt =====
-- src/context_store.rs: the files of a container and the small writes. A write succeeds: it is a temporary
-- file and a rename. A directory is a map from names to bytes; an object's name is its id, of at least
-- three characters, as `object_path` is one to one on those. The replicas' directories lie outside.
use subnext.Prelude.{
  ℕ, ◌-◌, ◌%◌, Bool, false, Option, none, some, List, [], ◌∷◌, ◌++◌, length, take, drop, replicate,
  ltb, ◌==◌, if◌then◌else◌,
}
use subnext.Prelude.Bytes.{codes, bytes_eq}
use subnext.Prelude.Dict.{Dict, get}
use subnext.Prelude.BTree.{put}
use subnext.Prelude.Results.{Result, ok, ok_or, ◌>>=◌, ◌>>◌, guard}
use subnext.Json.{Json, str, obj}
use subnext.Json.Write.{write}
use subnext.Hash.Stream.{be64, sha256}
use subnext.Hash.Hex.{to_hex, parse_pairs}
use subnext.Hash.Tagged.{tagged}
use subnext.Spans.Slices.{decimal}
use subnext.Trust.{AdmissionPolicy}
use subnext.Container.{
  Host, ContextError, parse_error, corrupt, missing, ObjectMeta, Checkpoint, Manifest,
}
use subnext.Container.Format.{
  pairs, meta_json, digest_field, u64_field, number, or_default, checkpoint_json,
}
use subnext.Container.Front.{manifest_json, read_json}

pub record Disk : Type 0 where
  pub manifest_file : Option (List ℕ)
  pub hwm : Option (List ℕ)
  pub object_files : Dict (List ℕ)
  pub sidecars : Dict (List ℕ)
  pub checkpoint_files : Dict (List ℕ)
  pub signatures : Dict (List ℕ)
  pub quarantine_files : Dict (List ℕ)
  pub reasons : Dict (List ℕ)
  -- The objects of a replica, by its path.
  pub copies : Dict (Dict (List ℕ))

pub record ContextStore : Type 0 where
  pub manifest : Manifest
  pub objects : Dict ObjectMeta
  pub checkpoints : List Checkpoint
  pub pending : Dict (Unit {0})
  pub replicas : List (List ℕ)
  pub policy : AdmissionPolicy

-- The store and the files that its operations work on.
pub record Machine : Type 0 where
  pub store : ContextStore
  pub disk : Disk

-- `relative(root, object_path(id))`
unfoldable pub object_location : List ℕ → List ℕ
object_location id =
    if ltb (length id) 3
    then codes "objects/" ++ id
    else codes "objects/" ++ (take 2 id ++ (b'/' ∷ drop 2 id))

abbrev pub replica_location : List ℕ → List ℕ → List ℕ
replica_location replica id = replica ++ (b'/' ∷ object_location id)

-- `format!("{generation:06}")`
unfoldable pub generation_name : ℕ → List ℕ
generation_name n = let digits = decimal n in replicate (6 - length digits) b'0' ++ digits

unfoldable pub unhex : List ℕ → Option (List ℕ)
unfolding parse_pairs
unhex text = if length text % 2 == 0 then parse_pairs text else none

copy_of : Disk → List ℕ → Dict (List ℕ)
unfolding get
copy_of disk replica = or_default (get disk.copies replica) []

-- The loop of `put` over the replicas.
unfoldable pub write_copies : List (List ℕ) → List ℕ → List ℕ → Disk → Disk
unfolding put copy_of
write_copies [] id bytes disk = disk
write_copies (replica ∷ rest) id bytes disk =
    write_copies rest id bytes
      (record disk { copies = put disk.copies replica (put (copy_of disk replica) id bytes) })

-- The loop of `replica_copies`, with the location of a copy.
copies_in : Disk → List (List ℕ) → List ℕ → List (List ℕ × List ℕ)
unfolding get copy_of
copies_in disk [] id = []
copies_in disk (replica ∷ rest) id =
    let later = copies_in disk rest id in
    elim (get (copy_of disk replica) id) [
      | none ↦ later
      | some bytes ↦ (replica_location replica id, bytes) ∷ later
    ]

unfoldable pub replica_copies : Machine → List ℕ → List (List ℕ × List ℕ)
unfolding copies_in
replica_copies m id = copies_in m.disk m.store.replicas id

unfoldable pub read_object_bytes : Disk → List ℕ → Result ContextError (List ℕ)
unfolding get
read_object_bytes disk id = do
  bytes ← ok_or (get disk.object_files id) (missing id)
  guard (bytes_eq (to_hex (sha256 bytes)) id) (corrupt id)
  ok bytes

module _ (host : Host) where
  -- `to_json_string().as_bytes()`
  unfoldable pub json_bytes : Json → List ℕ
  unfolding write
  json_bytes v = host.encode (write host.floats v)

  unfoldable pub write_sidecar : List ℕ → ObjectMeta → Disk → Disk
  unfolding put json_bytes meta_json
  write_sidecar id m disk = record disk {
    sidecars = put disk.sidecars id (json_bytes (meta_json host m));
  }

  unfoldable pub write_manifest : Manifest → Disk → Disk
  unfolding json_bytes manifest_json
  write_manifest m disk = record disk { manifest_file = some (json_bytes (manifest_json host m)) }

  abbrev hwm_guard : ℕ → List ℕ
  hwm_guard generation = tagged (codes "dcr:hwm") (be64 generation ∷ [])

  unfoldable pub write_hwm : ℕ → Disk → Disk
  unfolding json_bytes
  write_hwm generation disk = record disk {
    hwm = some (
        json_bytes (
          obj (
            pairs (
              (codes "highest_generation", number host generation)
              ∷ (codes "guard", str (to_hex (hwm_guard generation)))
              ∷ []))));
  }

  abbrev guarded : Option (List ℕ) → ℕ → Bool
  guarded none generation = false
  guarded (some d) generation = bytes_eq d (hwm_guard generation)

  hwm_value : Json → Result ContextError ℕ
  unfolding u64_field digest_field
  hwm_value value = do
    generation ← ok_or (u64_field host value (codes "highest_generation")) parse_error
    guard (guarded (digest_field value (codes "guard")) generation)
        (corrupt (codes "generation.hwm"))
    ok generation

  unfoldable pub read_hwm : Disk → Result ContextError ℕ
  unfolding read_json hwm_value
  read_hwm disk = elim disk.hwm [ none ↦ ok 0 | some bytes ↦ read_json host bytes >>= hwm_value ]

  unfoldable pub write_checkpoint : Checkpoint → Disk → Disk
  unfolding put json_bytes checkpoint_json generation_name
  write_checkpoint c disk = record disk {
    checkpoint_files =
        put disk.checkpoint_files (generation_name c.generation)
          (json_bytes (checkpoint_json host c));
  }
