-- ===== src/Container/ReadBack.antt =====
-- src/context_store.rs: an object is read back after it was put in.
use subnext.Prelude.{
  ℕ, ◌≡◌, refl, sym, ap, ◌∙◌, subst, ◌⊎◌, inl, inr, Bool, true, false, ◌&&◌, Option, none, some,
  List, if◌then◌else◌, Bool-cases,
}
use subnext.Prelude.Bytes.{bytes_eq, bytes_eq_refl}
use subnext.Prelude.Dict.{Dict, get}
use subnext.Prelude.BTree.{contains, get-put-same}
use subnext.Prelude.Results.{Result, ok, err, ok_eq}
use subnext.Hash.Stream.{sha256}
use subnext.Hash.Hex.{to_hex}
use subnext.Trust.{is_nil, provenance_missing}
use subnext.Container.{Host, ContextError, immutable, refused, ObjectRecord, ObjectMeta}
use subnext.Container.Format.{canonical_bytes}
use subnext.Container.Disk.{Machine, read_object_bytes}
use subnext.Container.Store.{write_object, stamped, put_existing, put_record}
use subnext.Container.Intact.{Settled, Updates, write_object-Updates}

-- The object that was put in under `id` is listed and read back; its bytes are `bytes`, unless the
-- store had an object of that id before.
pub ReadBack : Machine → Machine → List ℕ → List ℕ → Type 0
ReadBack m m' id bytes =
    (contains m'.store.objects id ≡ true)
    × ((found : List ℕ) × (read_object_bytes m'.disk id ≡ ok found)
        × ((found ≡ bytes) ⊎ (contains m.store.objects id ≡ true)))

read_object_bytes-ok :
    (m : Machine) (id found : List ℕ)
    → get m.disk.object_files id ≡ some found
    → to_hex (sha256 found) ≡ id
    → read_object_bytes m.disk id ≡ ok found
unfolding read_object_bytes
read_object_bytes-ok m id found there hash =
    let same : bytes_eq (to_hex (sha256 found)) id ≡ true =
      subst (λ d. bytes_eq (to_hex (sha256 found)) d ≡ true) hash (bytes_eq_refl _) in
    rw (there, same) refl

get-contains :
    {V : Type 0} (d : Dict V) (id : List ℕ) (v : V) → get d id ≡ some v → contains d id ≡ true
unfolding contains
get-contains d id v h = rw (h, contains) refl

Updates-ReadBack :
    (m m' : Machine) (id bytes : List ℕ) → Updates m m' id bytes → ReadBack m m' id bytes
unfolding ReadBack
Updates-ReadBack m m' id bytes u =
    let listed = get-put-same _ _ id id u.meta u.objects (bytes_eq_refl id) in
    let there = get-put-same _ _ id id bytes u.files (bytes_eq_refl id) in
    (
      get-contains m'.store.objects id u.meta listed,
      (bytes, read_object_bytes-ok m' id bytes there u.hash, inl refl),
    )

module _ (host : Host) where
  -- The answer for an object that is there.
  answered :
      (c : Bool) (id id' : List ℕ) (e : ContextError)
      (kept refusing : Result ContextError (List ℕ) × Machine)
      → kept.0 ≡ ok id
      → refusing.0 ≡ err e
      → (if c then kept else refusing).0 ≡ ok id'
      → (c ≡ true) × (id ≡ id')
  answered true id id' e kept refusing there refusal h = (refl, ok_eq kept.0 there h)
  answered false id id' e kept refusing there refusal h = absurd cc

  put_existing-ReadBack :
      (found : Option ObjectMeta) (m written : Machine) (id id' bytes : List ℕ)
      → get m.store.objects id ≡ found
      → Updates m written id bytes
      → Settled m id
      → (put_existing host found m written (sha256 bytes) id).0 ≡ ok id'
      → (id ≡ id') × ReadBack m (put_existing host found m written (sha256 bytes) id).1 id bytes
  unfolding ReadBack
  put_existing-ReadBack none m written id id' bytes listed u h e =
      (ok_eq _ refl e, Updates-ReadBack m written id bytes u)
  put_existing-ReadBack (some existing) m written id id' bytes listed u (inl absent) e = absurd cc
  put_existing-ReadBack (some existing) m written id id' bytes listed u (inr (b, there, hash)) e =
      let (same, ids) =
        answered (bytes_eq existing.hash (sha256 bytes)) id id' (immutable id) (ok id, m)
          (err (immutable id), m) refl refl e in
      let known = get-contains m.store.objects id existing listed in
      rw same (ids, (known, (b, read_object_bytes-ok m id b there hash, inr known)))

  put_record-refused :
      (m : Machine) (r : ObjectRecord)
      → (stamped m.store r).derived && is_nil (stamped m.store r).source_objects ≡ true
      → put_record host m r ≡ (err (refused r.logical_id provenance_missing), m)
  unfolding put_record
  put_record-refused m r h = rw h refl

  put_record-traced :
      (m : Machine) (r : ObjectRecord)
      → (stamped m.store r).derived && is_nil (stamped m.store r).source_objects ≡ false
      → let bytes = canonical_bytes host (stamped m.store r) in
        let id = to_hex (sha256 bytes) in
        put_record host m r
        ≡ put_existing host
            (get m.store.objects id)
            m
            (write_object host m (stamped m.store r).generation (sha256 bytes) id bytes)
            (sha256 bytes)
            id
  unfolding put_record
  put_record-traced m r h = rw h refl

  -- In a container without an object whose file does not have the bytes of its id, a put that returns an
  -- id returns that of the canonical bytes of the record as it was stamped, and the object of that id is
  -- listed and read back; what is read are those bytes, unless the container listed the id before.
  pub put_record-ReadBack :
      (m : Machine) (r : ObjectRecord) (id : List ℕ)
      → ((j : List ℕ) → Settled m j)
      → (put_record host m r).0 ≡ ok id
      → (to_hex (sha256 (canonical_bytes host (stamped m.store r))) ≡ id)
        × ReadBack m (put_record host m r).1 id (canonical_bytes host (stamped m.store r))
  put_record-ReadBack m r id settled e =
      let r' = stamped m.store r in
      let bytes = canonical_bytes host r' in
      let id' = to_hex (sha256 bytes) in
      let u = write_object-Updates host m r'.generation id' bytes refl in
      let written = write_object host m r'.generation (sha256 bytes) id' bytes in
      elim (Bool-cases (r'.derived && is_nil r'.source_objects)) [
        | inl untraced ↦
            let failed =
              ap (λ (p : Result ContextError (List ℕ) × Machine). p.0)
                (put_record-refused m r untraced) in
            absurd cc
        | inr traced ↦
            let step = put_record-traced m r traced in
            let answer = sym (ap (λ (p : Result ContextError (List ℕ) × Machine). p.0) step) ∙ e in
            let (ids, back) =
              put_existing-ReadBack (get m.store.objects id') m written id' id bytes refl u
                (settled id') answer in
            (
              ids,
              subst (λ j. ReadBack m (put_record host m r).1 j bytes) ids
                  (subst (λ (p : Result ContextError (List ℕ) × Machine). ReadBack m p.1 id' bytes)
                    (sym step) back),
            )
      ]
