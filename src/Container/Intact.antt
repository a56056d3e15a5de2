-- ===== src/Container/Intact.antt =====
-- src/context_store.rs: the objects whose bytes are those of their addresses, under every operation.
use subnext.Prelude.{
  ℕ, ◌≡◌, refl, sym, ap, ◌∙◌, subst, ◌⊎◌, inl, inr, Bool, true, false, ◌&&◌, Option, none, some,
  List, [], ◌∷◌, arith, Bool-cases,
}
use subnext.Prelude.Bytes.{bytes_eq, bytes_eq_iff}
use subnext.Prelude.Dict.{get}
use subnext.Prelude.BTree.{put, get-put-same, get-put-other, get-remove-same, get-remove-other}
use subnext.Prelude.Results.{Result, ok}
use subnext.Hash.Stream.{sha256}
use subnext.Hash.Hex.{to_hex}
use subnext.Trust.{Signer, is_context_signing, is_nil}
use subnext.Container.{Host, ContextError, ObjectRecord, ObjectMeta, Checkpoint}
use subnext.Container.Format.{canonical_bytes}
use subnext.Container.Disk.{
  Disk, Machine, write_copies, write_sidecar, write_manifest, write_hwm, write_checkpoint,
}
use subnext.Container.Store.{
  write_object, stamped, put_existing, put_record, restore_object, move_aside, quarantine,
}
use subnext.Container.Commit.{
  commit, seal, advance, next_checkpoint, write_signature, sign_and_advance, standing, last_of,
}

-- The file of an object has the bytes of its address.
abbrev pub Intact : Machine → List ℕ → Type 0
Intact m id =
    (bytes : List ℕ) × (get m.disk.object_files id ≡ some bytes) × (to_hex (sha256 bytes) ≡ id)

-- The store does not name the object, or its file is intact.
abbrev pub Settled : Machine → List ℕ → Type 0
Settled m id = (get m.store.objects id ≡ none) ⊎ Intact m id

write_copies-object_files :
    (replicas : List (List ℕ)) (id bytes : List ℕ) (disk : Disk)
    → (write_copies replicas id bytes disk).object_files ≡ disk.object_files
unfolding write_copies
write_copies-object_files [] id bytes disk = refl
write_copies-object_files (replica ∷ rest) id bytes disk = write_copies-object_files rest id bytes _

-- An object that was put in, with its bytes.
pub record Updates (m m' : Machine) (id bytes : List ℕ) : Type 0 where
  pub meta : ObjectMeta
  pub files : m'.disk.object_files ≡ put m.disk.object_files id bytes
  pub objects : m'.store.objects ≡ put m.store.objects id meta
  pub hash : to_hex (sha256 bytes) ≡ id

pub Updates-Intact :
    (m m' : Machine) (id bytes : List ℕ)
    → Updates m m' id bytes
    → (j : List ℕ) → bytes_eq id j ≡ true
    → Intact m' j
Updates-Intact m m' id bytes u j same =
    (bytes, get-put-same _ _ id j bytes u.files same, u.hash ∙ bytes_eq_iff id j same)

-- The file and the entry of an object as they were.
abbrev pub SameAt : Machine → Machine → List ℕ → Type 0
SameAt m m' j =
    (get m'.disk.object_files j ≡ get m.disk.object_files j)
    × (get m'.store.objects j ≡ get m.store.objects j)

SameAt-Settled : (m m' : Machine) (j : List ℕ) → SameAt m m' j → Settled m j → Settled m' j
SameAt-Settled m m' j (files, objects) (inl absent) = inl (objects ∙ absent)
SameAt-Settled m m' j (files, objects) (inr (bytes, found, hash)) = inr (bytes, files ∙ found, hash)

pub Updates-SameAt :
    (m m' : Machine) (id bytes : List ℕ)
    → Updates m m' id bytes
    → (j : List ℕ) → bytes_eq id j ≡ false
    → SameAt m m' j
Updates-SameAt m m' id bytes u j other =
    (get-put-other _ _ id j bytes u.files other, get-put-other _ _ id j u.meta u.objects other)

pub Updates-Settled :
    (m m' : Machine) (id bytes : List ℕ)
    → Updates m m' id bytes
    → (j : List ℕ) → Settled m j
    → Settled m' j
Updates-Settled m m' id bytes u j h = elim (Bool-cases (bytes_eq id j)) [
  | inl same ↦ inr (Updates-Intact m m' id bytes u j same)
  | inr other ↦ SameAt-Settled m m' j (Updates-SameAt m m' id bytes u j other) h
]

module _ (host : Host) where
  pub write_object-Updates :
      (m : Machine) (generation : ℕ) (id bytes : List ℕ)
      → to_hex (sha256 bytes) ≡ id
      → Updates m (write_object host m generation (sha256 bytes) id bytes) id bytes
  unfolding write_object write_sidecar
  write_object-Updates m generation id bytes hash = record {
    meta = _;
    files = write_copies-object_files m.store.replicas id bytes _;
    objects = refl;
    hash = hash;
  }

  pub restore_object-Updates :
      (m : Machine) (id bytes : List ℕ)
      → bytes_eq (to_hex (sha256 bytes)) id ≡ true
      → ((restore_object host m id bytes).0 ≡ ok tt)
        × Updates m (restore_object host m id bytes).1 id bytes
  unfolding restore_object write_sidecar
  restore_object-Updates m id bytes h =
      rw h (refl, record { meta = _; files = refl; objects = refl; hash = bytes_eq_iff _ _ h })

  restore_object-refused :
      (m : Machine) (id bytes : List ℕ)
      → bytes_eq (to_hex (sha256 bytes)) id ≡ false
      → (restore_object host m id bytes).1 ≡ m
  unfolding restore_object
  restore_object-refused m id bytes h = ground arith

  pub restore_object-Settled :
      (m : Machine) (id bytes j : List ℕ)
      → Settled m j
      → Settled (restore_object host m id bytes).1 j
  restore_object-Settled m id bytes j h = elim (Bool-cases (bytes_eq (to_hex (sha256 bytes)) id)) [
    | inl e ↦
        let (done, u) = restore_object-Updates m id bytes e in
        Updates-Settled m (restore_object host m id bytes).1 id bytes u j h
    | inr e ↦ subst (λ n. Settled n j) (sym (restore_object-refused m id bytes e)) h
  ]

  move_aside-other :
      (disk : Disk) (id j : List ℕ) (found : Option (List ℕ))
      → bytes_eq id j ≡ false
      → get (move_aside host disk id found).object_files j ≡ get disk.object_files j
  move_aside-other disk id j none other = refl
  move_aside-other disk id j (some bytes) other =
      get-remove-other disk.object_files _ id j refl other

  pub quarantine-SameAt :
      (m : Machine) (id reason j : List ℕ)
      → bytes_eq id j ≡ false
      → SameAt m (quarantine host m id reason).1 j
  unfolding quarantine
  quarantine-SameAt m id reason j other = (
    move_aside-other m.disk id j (get m.disk.object_files id) other,
    get-remove-other m.store.objects _ id j refl other,
  )

  pub quarantine-Settled :
      (m : Machine) (id reason j : List ℕ)
      → (bytes_eq id j ≡ true) ⊎ Settled m j
      → Settled (quarantine host m id reason).1 j
  unfolding quarantine
  quarantine-Settled m id reason j h = elim (Bool-cases (bytes_eq id j)) [
    | inl same ↦ inl (get-remove-same m.store.objects _ id j refl same)
    | inr other ↦ elim h [
      | inl same ↦ cc
      | inr settled ↦
          SameAt-Settled m (quarantine host m id reason).1 j (quarantine-SameAt m id reason j other)
            settled
    ]
  ]

  put_existing-Settled :
      (found : Option ObjectMeta) (m written : Machine) (hash id bytes : List ℕ)
      → Updates m written id bytes
      → (j : List ℕ) → Settled m j
      → Settled (put_existing host found m written hash id).1 j
  put_existing-Settled none m written hash id bytes u j h = Updates-Settled m written id bytes u j h
  put_existing-Settled (some existing) m written hash id bytes u j h = ground arith

  pub put_record-Settled :
      (m : Machine) (r : ObjectRecord) (j : List ℕ)
      → Settled m j
      → Settled (put_record host m r).1 j
  unfolding put_record
  put_record-Settled m r j h =
      let r' = stamped m.store r in
      let bytes = canonical_bytes host r' in
      let id = to_hex (sha256 bytes) in
      let u = write_object-Updates m r'.generation id bytes refl in
      elim (Bool-cases (r'.derived && is_nil r'.source_objects)) [
        | inl refused ↦ rw refused h
        | inr traced ↦
            rw traced
              (put_existing-Settled (get m.store.objects id) m _ (sha256 bytes) id bytes u j h)
      ]

  -- Sealing a generation keeps the objects and their files.
  KeepsObjects : Machine → Machine → Type 0
  KeepsObjects m m' =
      (m'.disk.object_files ≡ m.disk.object_files) × (m'.store.objects ≡ m.store.objects)

  sign_and_advance-KeepsObjects :
      (m : Machine) (c : Checkpoint) (signer : Option Signer)
      → KeepsObjects m (sign_and_advance host m.store (write_checkpoint host c m.disk) c signer).1
  unfolding KeepsObjects advance write_hwm write_manifest write_checkpoint write_signature
  sign_and_advance-KeepsObjects m c none = (refl, refl)
  sign_and_advance-KeepsObjects m c (some signer) =
      elim (Bool-cases (is_context_signing signer.key_id.role)) [
        | inl e ↦ rw e (refl, refl)
        | inr e ↦ rw e (refl, refl)
      ]

  standing-KeepsObjects :
      (test : Bool) (parent : Option Checkpoint) (m : Machine)
      (sealed : Result ContextError Checkpoint × Machine)
      → KeepsObjects m sealed.1
      → KeepsObjects m (standing host test parent m sealed).1
  unfolding KeepsObjects
  standing-KeepsObjects true (some parent) m sealed h = (refl, refl)
  standing-KeepsObjects true none m sealed h = h
  standing-KeepsObjects false parent m sealed h = h

  pub commit-SameAt :
      (m : Machine) (timestamp : ℕ) (signer : Option Signer) (j : List ℕ)
      → SameAt m (commit host m timestamp signer).1 j
  unfolding commit seal KeepsObjects
  commit-SameAt m timestamp signer j =
      let kept =
        standing-KeepsObjects _ (last_of m.store.checkpoints) m _
          (sign_and_advance-KeepsObjects m (next_checkpoint host m.store timestamp) signer) in
      (ap (λ d. get d j) kept.0, ap (λ d. get d j) kept.1)

  pub commit-Settled :
      (m : Machine) (timestamp : ℕ) (signer : Option Signer) (j : List ℕ)
      → Settled m j
      → Settled (commit host m timestamp signer).1 j
  commit-Settled m timestamp signer j h =
      SameAt-Settled m (commit host m timestamp signer).1 j (commit-SameAt m timestamp signer j) h
