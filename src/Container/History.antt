-- ===== src/Container/History.antt =====
-- src/context_store.rs: the states that the operations lead to from a new container.
use subnext.Prelude.{
  ℕ, ◌+◌, ◌≡◌, refl, sym, ap, subst, inl, inr, Bool, true, false, ◌&&◌, Option, none, some, List,
  [], ◌∷◌, ◌++◌, Bool-cases,
}
use subnext.Prelude.Bytes.{bytes_eq}
use subnext.Prelude.Dict.{get}
use subnext.Prelude.Results.{Result, ok, guard-eq-ok, ok_eq}
use subnext.Hash.Stream.{sha256}
use subnext.Hash.Hex.{to_hex}
use subnext.Trust.{Signer, is_context_signing, is_nil}
use subnext.Container.{Host, ContextError, ObjectRecord, ObjectMeta, Checkpoint}
use subnext.Container.Format.{canonical_bytes, compute_chain, body_bytes, body_json, body_fields}
use subnext.Container.Chain.{
  parent_root_of, expected_generation, IsNext, IsChain, verify_chain, IsChain-verify_from,
}
use subnext.Container.Disk.{Disk, ContextStore, Machine}
use subnext.Container.Store.{
  write_object, stamped, put_existing, put_record, add_replica, restore_object, quarantine,
}
use subnext.Container.Commit.{
  last_from, last_of, unchained, next_checkpoint, advance, sign_and_advance, seal, standing, commit,
}
use subnext.Container.Open.{create, new_store}
use subnext.Container.Intact.{
  Settled, put_record-Settled, restore_object-Settled, quarantine-Settled, commit-Settled,
}

abbrev KeepsHistory : ContextStore → ContextStore → Type 0
KeepsHistory s s' = (s'.checkpoints ≡ s.checkpoints) × (s'.manifest ≡ s.manifest)

last_from-append :
    (p : Option Checkpoint) (cs : List Checkpoint) (c : Checkpoint)
    → last_from p (cs ++ (c ∷ [])) ≡ some c
last_from-append p [] c = refl
last_from-append p (d ∷ cs) c = last_from-append (some d) cs c

module _ (host : Host) where
  IsChain-append :
      (p : Option Checkpoint) (cs : List Checkpoint) (c : Checkpoint)
      → IsChain host p cs
      → IsNext host (last_from p cs) c
      → IsChain host p (cs ++ (c ∷ []))
  IsChain-append p [] c h next = (next, tt)
  IsChain-append p (d ∷ cs) c (first, rest) next = (first, IsChain-append (some d) cs c rest next)

  -- The checkpoints are a chain, of which the manifest names the end.
  pub record IsConsistent (s : ContextStore) : Type 0 where
    pub chained : IsChain host none s.checkpoints
    pub counted : s.manifest.highest_generation + 1 ≡ expected_generation (last_of s.checkpoints)
    pub rooted : s.manifest.root_hash ≡ parent_root_of (last_of s.checkpoints)

  KeepsHistory-IsConsistent :
      (s s' : ContextStore) → KeepsHistory s s' → IsConsistent s → IsConsistent s'
  KeepsHistory-IsConsistent s s' (checkpoints, manifest) h = record {
    chained = subst (IsChain host none) (sym checkpoints) h.chained;
    counted = rw (checkpoints, manifest) h.counted;
    rooted = rw (checkpoints, manifest) h.rooted;
  }

  next_checkpoint-IsNext :
      (s : ContextStore) (timestamp : ℕ)
      → IsConsistent s
      → IsNext host (last_of s.checkpoints) (next_checkpoint host s timestamp)
  unfolding next_checkpoint unchained compute_chain body_bytes body_json body_fields
  next_checkpoint-IsNext s timestamp h = record {
    generation = h.counted;
    parent_chain = refl;
    parent_root = refl;
    chain = refl;
  }

  advance-IsConsistent :
      (s : ContextStore) (disk : Disk) (c : Checkpoint)
      → IsChain host none s.checkpoints
      → IsNext host (last_of s.checkpoints) c
      → IsConsistent (advance host s disk c).1.store
  unfolding advance
  advance-IsConsistent s disk c chain next =
      let last = last_from-append none s.checkpoints c in
      record {
        chained = IsChain-append none s.checkpoints c chain next;
        counted = rw last refl;
        rooted = rw last refl;
      }

  sign_and_advance-IsConsistent :
      (s : ContextStore) (disk : Disk) (c : Checkpoint) (signer : Option Signer)
      → IsConsistent s
      → IsNext host (last_of s.checkpoints) c
      → IsConsistent (sign_and_advance host s disk c signer).1.store
  sign_and_advance-IsConsistent s disk c none h next = advance-IsConsistent s disk c h.chained next
  sign_and_advance-IsConsistent s disk c (some signer) h next =
      elim (Bool-cases (is_context_signing signer.key_id.role)) [
        | inl e ↦ rw e (advance-IsConsistent _ _ c h.chained next)
        | inr e ↦ rw e h
      ]

  standing-IsConsistent :
      (test : Bool) (parent : Option Checkpoint) (m : Machine)
      (sealed : Result ContextError Checkpoint × Machine)
      → IsConsistent m.store
      → IsConsistent sealed.1.store
      → IsConsistent (standing host test parent m sealed).1.store
  standing-IsConsistent true (some parent) m sealed h h' = h
  standing-IsConsistent true none m sealed h h' = h'
  standing-IsConsistent false parent m sealed h h' = h'

  commit-IsConsistent :
      (m : Machine) (timestamp : ℕ) (signer : Option Signer)
      → IsConsistent m.store
      → IsConsistent (commit host m timestamp signer).1.store
  unfolding commit seal
  commit-IsConsistent m timestamp signer h =
      standing-IsConsistent _ (last_of m.store.checkpoints) m _ h (
        sign_and_advance-IsConsistent m.store _ (next_checkpoint host m.store timestamp) signer h
          (next_checkpoint-IsNext m.store timestamp h))

  put_existing-KeepsHistory :
      (found : Option ObjectMeta) (m written : Machine) (hash id : List ℕ)
      → KeepsHistory m.store written.store
      → KeepsHistory m.store (put_existing host found m written hash id).1.store
  put_existing-KeepsHistory none m written hash id h = h
  put_existing-KeepsHistory (some existing) m written hash id h =
      elim (Bool-cases (bytes_eq existing.hash hash)) [
        | inl e ↦ rw e (refl, refl)
        | inr e ↦ rw e (refl, refl)
      ]

  put_record-KeepsHistory :
      (m : Machine) (r : ObjectRecord) → KeepsHistory m.store (put_record host m r).1.store
  unfolding put_record write_object
  put_record-KeepsHistory m r =
      let r' = stamped m.store r in
      let bytes = canonical_bytes host r' in
      let hash = sha256 bytes in
      let id = to_hex hash in
      elim (Bool-cases (r'.derived && is_nil r'.source_objects)) [
        | inl refused ↦ rw refused (refl, refl)
        | inr traced ↦ rw traced (
            put_existing-KeepsHistory (get m.store.objects id) m
              (write_object host m r'.generation hash id bytes) hash id (refl, refl))
      ]

  restore_object-KeepsHistory :
      (m : Machine) (id bytes : List ℕ)
      → KeepsHistory m.store (restore_object host m id bytes).1.store
  unfolding restore_object
  restore_object-KeepsHistory m id bytes = elim (Bool-cases (bytes_eq (to_hex (sha256 bytes)) id)) [
    | inl e ↦ rw e (refl, refl)
    | inr e ↦ rw e (refl, refl)
  ]

  quarantine-KeepsHistory :
      (m : Machine) (id reason : List ℕ)
      → KeepsHistory m.store (quarantine host m id reason).1.store
  unfolding quarantine
  quarantine-KeepsHistory m id reason = (refl, refl)

  -- One call that may change the container, whether it succeeds or not.
  pub data Step : Machine → Machine → Type 0 where
    putting : (m : Machine) (r : ObjectRecord) → Step m (put_record host m r).1
    registering : (m : Machine) (path : List ℕ) → Step m (add_replica m path)
    restoring : (m : Machine) (id bytes : List ℕ) → Step m (restore_object host m id bytes).1
    quarantining : (m : Machine) (id reason : List ℕ) → Step m (quarantine host m id reason).1
    committing :
        (m : Machine) (timestamp : ℕ) (signer : Option Signer)
        → Step m (commit host m timestamp signer).1

  pub data Reaches : Machine → Machine → Type 0 where
    stays : (m : Machine) → Reaches m m
    goes : {m n o : Machine} → Reaches m n → Step n o → Reaches m o

  Step-IsConsistent : (m n : Machine) → Step m n → IsConsistent m.store → IsConsistent n.store
  Step-IsConsistent _ _ (putting m r) h =
      KeepsHistory-IsConsistent m.store _ (put_record-KeepsHistory m r) h
  Step-IsConsistent _ _ (registering m path) h =
      KeepsHistory-IsConsistent m.store (add_replica m path).store (refl, refl) h
  Step-IsConsistent _ _ (restoring m id bytes) h =
      KeepsHistory-IsConsistent m.store _ (restore_object-KeepsHistory m id bytes) h
  Step-IsConsistent _ _ (quarantining m id reason) h =
      KeepsHistory-IsConsistent m.store _ (quarantine-KeepsHistory m id reason) h
  Step-IsConsistent _ _ (committing m timestamp signer) h = commit-IsConsistent m timestamp signer h

  Step-Settled : (m n : Machine) (j : List ℕ) → Step m n → Settled m j → Settled n j
  Step-Settled _ _ j (putting m r) h = put_record-Settled host m r j h
  Step-Settled _ _ j (registering m path) h = h
  Step-Settled _ _ j (restoring m id bytes) h = restore_object-Settled host m id bytes j h
  Step-Settled _ _ j (quarantining m id reason) h = quarantine-Settled host m id reason j (inr h)
  Step-Settled _ _ j (committing m timestamp signer) h = commit-Settled host m timestamp signer j h

  Reaches-IsConsistent : (m n : Machine) → Reaches m n → IsConsistent m.store → IsConsistent n.store
  Reaches-IsConsistent _ _ (stays m) h = h
  Reaches-IsConsistent _ _ (goes {m} {n} {o} path step) h =
      Step-IsConsistent n o step (Reaches-IsConsistent m n path h)

  Reaches-Settled : (m n : Machine) (j : List ℕ) → Reaches m n → Settled m j → Settled n j
  Reaches-Settled _ _ j (stays m) h = h
  Reaches-Settled _ _ j (goes {m} {n} {o} path step) h =
      Step-Settled n o j step (Reaches-Settled m n j path h)

  create-store :
      (agent_id : List ℕ) (disk : Disk) (m : Machine)
      → create host agent_id disk ≡ ok m
      → m.store ≡ new_store agent_id
  unfolding create
  create-store agent_id disk m h =
      let (absent, made) = guard-eq-ok _ _ _ h in sym (ap (λ n. n.store) (ok_eq _ refl made))

  new_store-IsConsistent : (agent_id : List ℕ) → IsConsistent (new_store agent_id)
  unfolding new_store
  new_store-IsConsistent agent_id = record { chained = tt; counted = refl; rooted = refl }

  new_store-Settled :
      (agent_id : List ℕ) (m : Machine) (j : List ℕ) → m.store ≡ new_store agent_id → Settled m j
  unfolding new_store get
  new_store-Settled agent_id m j e = inl (ap (λ s. get s.objects j) e)

  -- Every container that puts, new replicas, restores, quarantines and commits lead to from a new one has checkpoints
  -- that the walk accepts, a manifest that names the last of them by generation and root, and no object
  -- whose file does not have the bytes of its id, as the files are written by these calls alone.
  pub created-Reaches :
      (agent_id : List ℕ) (disk : Disk) (m n : Machine)
      → create host agent_id disk ≡ ok m
      → Reaches m n
      → IsConsistent n.store
        × (verify_chain host n.store.checkpoints ≡ ok tt)
        × ((j : List ℕ) → Settled n j)
  unfolding verify_chain
  created-Reaches agent_id disk m n made path =
      let e = create-store agent_id disk m made in
      let consistent =
        Reaches-IsConsistent m n path
          (subst IsConsistent (sym e) (new_store-IsConsistent agent_id)) in
      (
        consistent,
        IsChain-verify_from host none n.store.checkpoints consistent.chained,
        λ j. Reaches-Settled m n j path (new_store-Settled agent_id m j e),
      )
