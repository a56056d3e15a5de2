-- ===== src/Scrub/Settles.antt =====
-- src/scrub.rs: the objects that a scrub leaves.
use subnext.Prelude.{
  ℕ, ◌≡◌, refl, sym, subst, ◌⊎◌, inl, inr, Bool, true, false, not, ◌&&◌, Option, none, some, List,
  [], ◌∷◌, if◌then◌else◌, arith, Bool-cases,
}
use subnext.Prelude.Bytes.{bytes_eq, bytes_eq_iff}
use subnext.Prelude.Dict.{Dict, get}
use subnext.Prelude.BTree.{keys}
use subnext.Prelude.Results.{Result, ok, err}
use subnext.Hash.Stream.{sha256}
use subnext.Hash.Hex.{to_hex}
use subnext.Trust.{Signer, is_nil}
use subnext.Container.{Host, ContextError, Checkpoint}
use subnext.Container.Disk.{Machine, replica_copies}
use subnext.Container.Store.{restore_object}
use subnext.Container.Commit.{commit}
use subnext.Container.Intact.{
  Intact, Settled, Updates, Updates-Intact, Updates-Settled, restore_object-Updates,
  quarantine-Settled, commit-Settled,
}
use subnext.Scrub.{
  ScrubOptions, Scrubbed, push, start, is_healthy, replica_rejected, note_checked, note_healthy,
  note_corrupt, note_unrepairable, quarantine_text, and_then, repaired_by, is_proved, repair_loop,
  repair_from_replica, give_up, after_repair, act, scrub_one, scrub_all, record_seal, seal_changes,
  scrub,
}

module _ (host : Host) where
  -- A repair installs bytes of the address, or leaves the container as it is.
  abbrev pub Repair : Machine → List ℕ → Result ContextError Bool × Scrubbed → Type 0
  Repair m id r =
      ((r.0 ≡ ok true) × ((bytes : List ℕ) × Updates m r.1.machine id bytes))
      ⊎ ((r.0 ≡ ok false) × (r.1.machine ≡ m))

  repaired_by-Repair :
      (s : Scrubbed) (id source bytes : List ℕ)
      → bytes_eq (to_hex (sha256 bytes)) id ≡ true
      → Repair s.machine id (repaired_by host (restore_object host s.machine id bytes) s id source)
  repaired_by-Repair s id source bytes h =
      let (done, updates) = restore_object-Updates host s.machine id bytes h in
      rw done (inl (refl, (bytes, updates)))

  repair_loop-Repair :
      (s : Scrubbed) (id : List ℕ) (copies : List (List ℕ × List ℕ))
      → Repair s.machine id (repair_loop host s id copies)
  unfolding repair_loop
  repair_loop-Repair s id [] = inr (refl, refl)
  repair_loop-Repair s id ((source, bytes) ∷ rest) =
      let later = repair_loop-Repair (push s (replica_rejected id source)) id rest in
      elim (Bool-cases (is_proved host s.machine id bytes)) [
        | inl proved ↦ rw proved (repaired_by-Repair s id source bytes (ground arith))
        | inr rejected ↦ rw rejected later
      ]

  -- The loop's step succeeds, settles its object and keeps what is settled.
  pub Settles : Machine → List ℕ → Result ContextError (Unit {0}) × Scrubbed → Type 0
  Settles m id r =
      (r.0 ≡ ok tt) × ((j : List ℕ) → (bytes_eq id j ≡ true) ⊎ Settled m j → Settled r.1.machine j)

  after_repair-Settles :
      (options : ScrubOptions) (m : Machine) (id : List ℕ) (r : Result ContextError Bool × Scrubbed)
      → options.quarantining ≡ true
      → Repair m id r
      → Settles m id (after_repair host options id r)
  unfolding Settles give_up note_unrepairable
  after_repair-Settles options m id (ok true, s) on (inl (done, (bytes, u))) = (
    refl,
    λ j h. elim h [
      | inl same ↦ inr (Updates-Intact m s.machine id bytes u j same)
      | inr settled ↦ Updates-Settled m s.machine id bytes u j settled
    ],
  )
  after_repair-Settles options m id (ok true, s) on (inr (done, same)) = absurd cc
  after_repair-Settles options m id (ok false, s) on (inl (done, (bytes, u))) = absurd cc
  after_repair-Settles options m id (ok false, s) on (inr (done, kept)) = rw on (
    refl,
    λ j h.
        quarantine-Settled host s.machine id quarantine_text j
          (subst (λ n. (bytes_eq id j ≡ true) ⊎ Settled n j) (sym kept) h),
  )
  after_repair-Settles options m id (err e, s) on (inl (done, (bytes, u))) = absurd cc
  after_repair-Settles options m id (err e, s) on (inr (done, same)) = absurd cc

  pub attempt-Repair :
      (options : ScrubOptions) (s : Scrubbed) (id : List ℕ)
      → Repair s.machine id
          (if options.repair then repair_from_replica host s id else (ok false, s))
  unfolding repair_from_replica
  attempt-Repair options s id = elim (Bool-cases options.repair) [
    | inl on ↦ rw on (repair_loop-Repair s id (replica_copies s.machine id))
    | inr off ↦ rw off (inr (refl, refl))
  ]

  healthy-Intact :
      (m : Machine) (id : List ℕ) (found : Option (List ℕ))
      → get m.disk.object_files id ≡ found
      → is_healthy found id ≡ true
      → Intact m id
  healthy-Intact m id none e h = absurd cc
  healthy-Intact m id (some bytes) e h = (bytes, e, bytes_eq_iff _ _ h)

  scrub_one-Settles :
      (options : ScrubOptions) (s : Scrubbed) (id : List ℕ)
      → options.quarantining ≡ true
      → Settles s.machine id (scrub_one host options s id)
  unfolding scrub_one Settles act note_checked note_healthy note_corrupt
  scrub_one-Settles options s id on =
      let found = get s.machine.disk.object_files id in
      elim (Bool-cases (is_healthy found id)) [
        | inl healthy ↦ rw healthy (
          refl,
          λ j h. elim h [
            | inl same ↦ inr (
                subst (Intact s.machine) (bytes_eq_iff id j same)
                  (healthy-Intact s.machine id found refl healthy))
            | inr settled ↦ settled
          ],
        )
        | inr corrupt ↦ rw corrupt (
            after_repair-Settles options s.machine id _ on
              (attempt-Repair options (note_corrupt (note_checked s) id found) id))
      ]

  and_then-ok :
      (r : Result ContextError (Unit {0}) × Scrubbed)
      (k : Scrubbed → Result ContextError (Unit {0}) × Scrubbed)
      → r.0 ≡ ok tt
      → and_then r k ≡ k r.1
  and_then-ok (ok u, s) k h = refl
  and_then-ok (err e, s) k h = absurd cc

  scrub_all-step :
      (options : ScrubOptions) (id : List ℕ) (ids : List (List ℕ)) (s : Scrubbed)
      → (scrub_one host options s id).0 ≡ ok tt
      → scrub_all host options (id ∷ ids) s
        ≡ scrub_all host options ids (scrub_one host options s id).1
  unfolding scrub_all
  scrub_all-step options id ids s done = and_then-ok (scrub_one host options s id) _ done

  scrub-step :
      (m : Machine) (options : ScrubOptions) (signer : Option Signer)
      → (scrub_all host options (keys m.store.objects) (start m)).0 ≡ ok tt
      → scrub host m options signer
        ≡ seal_changes host options signer
            (scrub_all host options (keys m.store.objects) (start m)).1
  unfolding scrub
  scrub-step m options signer done =
      and_then-ok (scrub_all host options (keys m.store.objects) (start m)) _ done

  -- One of the ids.
  abbrev Among : List (List ℕ) → List ℕ → Type 0
  Among [] j = ⊥
  Among (id ∷ ids) j = (bytes_eq id j ≡ true) ⊎ Among ids j

  scrub_all-Settles :
      (options : ScrubOptions) (ids : List (List ℕ)) (s : Scrubbed)
      → options.quarantining ≡ true
      → ((scrub_all host options ids s).0 ≡ ok tt)
        × ((j : List ℕ)
            → Among ids j ⊎ Settled s.machine j
            → Settled (scrub_all host options ids s).1.machine j)
  unfolding Settles scrub_all
  scrub_all-Settles options [] s on =
      (refl, λ j h. elim h [ inl none_left ↦ absurd none_left | inr settled ↦ settled ])
  scrub_all-Settles options (id ∷ ids) s on =
      let (done, first) = scrub_one-Settles options s id on in
      let s' = (scrub_one host options s id).1 in
      let (all_done, rest) = scrub_all-Settles options ids s' on in
      rw (scrub_all-step options id ids s done) (
        all_done,
        λ j h. rest j (elim h [
          | inl (inl same) ↦ inr (first j (inl same))
          | inl (inr later) ↦ inl later
          | inr settled ↦ inr (first j (inr settled))
        ]),
      )

  -- An object that the store does not list is not there.
  keys-Among : {V : Type 0} (d : Dict V) (j : List ℕ) → Among (keys d) j ⊎ (get d j ≡ none)
  unfolding keys get
  keys-Among [] j = inr refl
  keys-Among ((id, v) ∷ d) j = elim (Bool-cases (bytes_eq id j)) [
    | inl same ↦ inl (inl same)
    | inr other ↦ elim (keys-Among d j) [
      | inl later ↦ inl (inr later)
      | inr absent ↦ inr (rw other absent)
    ]
  ]

  seal_changes-Settled :
      (options : ScrubOptions) (signer : Option Signer) (s : Scrubbed) (j : List ℕ)
      → Settled s.machine j
      → Settled (seal_changes host options signer s).1.machine j
  unfolding seal_changes
  seal_changes-Settled options signer s j h =
      elim (Bool-cases (options.sealing && not (is_nil s.report.quarantined_ids))) [
        | inl on ↦ rw on (
            record_seal-Settled (commit host s.machine options.timestamp signer) s j
              (commit-Settled host s.machine options.timestamp signer j h))
        | inr off ↦ rw off h
      ]
    where
      record_seal-Settled :
          (r : Result ContextError Checkpoint × Machine) (s : Scrubbed) (j : List ℕ)
          → Settled r.1 j
          → Settled (record_seal host r s).1.machine j
      record_seal-Settled (ok c, m) s j h = h
      record_seal-Settled (err e, m) s j h = h

  -- A scrub that quarantines leaves no object under a wrong address: of every id, the store that it
  -- leaves names no object, or the file of the object has the bytes whose digest the id is.
  pub scrub-Settled :
      (m : Machine) (options : ScrubOptions) (signer : Option Signer) (j : List ℕ)
      → options.quarantining ≡ true
      → Settled (scrub host m options signer).1.machine j
  scrub-Settled m options signer j on =
      let ids = keys m.store.objects in
      let (done, settles) = scrub_all-Settles options ids (start m) on in
      rw (scrub-step m options signer done) (
        seal_changes-Settled options signer (scrub_all host options ids (start m)).1 j (
          settles j (elim (keys-Among m.store.objects j) [
            | inl listed ↦ inl listed
            | inr absent ↦ inr (inl absent)
          ])))
