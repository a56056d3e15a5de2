-- ===== src/Scrub/Healthy.antt =====
-- src/scrub.rs: the objects that a scrub does not touch.
use subnext.Prelude.{
  ℕ, ◌≡◌, refl, ◌∙◌, subst, inl, inr, Bool, true, false, not, ◌&&◌, Option, List, [], ◌∷◌, arith,
  Bool-cases,
}
use subnext.Prelude.Bytes.{bytes_eq, bytes_eq_iff, bytes_eq_refl}
use subnext.Prelude.Dict.{get}
use subnext.Prelude.BTree.{keys}
use subnext.Prelude.Results.{Result, ok, err}
use subnext.Hash.Stream.{sha256}
use subnext.Hash.Hex.{to_hex}
use subnext.Trust.{Signer, is_nil}
use subnext.Container.{Host, ContextError, Checkpoint}
use subnext.Container.Disk.{Machine}
use subnext.Container.Commit.{commit}
use subnext.Container.Intact.{Intact, SameAt, Updates-SameAt, quarantine-SameAt, commit-SameAt}
use subnext.Scrub.{
  ScrubOptions, Scrubbed, start, is_healthy, note_checked, note_healthy, note_corrupt,
  note_unrepairable, quarantine_text, and_then, give_up, after_repair, act, scrub_one, scrub_all,
  record_seal, seal_changes, scrub,
}
use subnext.Scrub.Settles.{Repair, attempt-Repair}

SameAt-trans : (m n o : Machine) (j : List ℕ) → SameAt m n j → SameAt n o j → SameAt m o j
SameAt-trans m n o j (f, g) (f', g') = (f' ∙ f, g' ∙ g)

SameAt-Intact : (m n : Machine) (j : List ℕ) → SameAt m n j → Intact m j → Intact n j
SameAt-Intact m n j (f, g) (bytes, found, hash) = (bytes, f ∙ found, hash)

Intact-healthy :
    (m : Machine) (j : List ℕ) → Intact m j → is_healthy (get m.disk.object_files j) j ≡ true
Intact-healthy m j (bytes, found, hash) =
    rw found (subst (λ d. bytes_eq (to_hex (sha256 bytes)) d ≡ true) hash (bytes_eq_refl _))

module _ (host : Host) where
  after_repair-SameAt :
      (options : ScrubOptions) (m : Machine) (id j : List ℕ)
      (r : Result ContextError Bool × Scrubbed)
      → Repair host m id r
      → bytes_eq id j ≡ false
      → SameAt m (after_repair host options id r).1.machine j
  unfolding give_up note_unrepairable
  after_repair-SameAt options m id j (ok true, s) (inl (done, (bytes, u))) other =
      Updates-SameAt m s.machine id bytes u j other
  after_repair-SameAt options m id j (ok true, s) (inr (done, same)) other = absurd cc
  after_repair-SameAt options m id j (ok false, s) (inl (done, (bytes, u))) other = absurd cc
  after_repair-SameAt options m id j (ok false, s) (inr (done, kept)) other =
      subst (λ n. SameAt n (give_up host options s id).machine j) kept
        (elim (Bool-cases options.quarantining) [
          | inl on ↦ rw on (quarantine-SameAt host s.machine id quarantine_text j other)
          | inr off ↦ rw off (refl, refl)
        ])
  after_repair-SameAt options m id j (err e, s) (inl (done, (bytes, u))) other = absurd cc
  after_repair-SameAt options m id j (err e, s) (inr (done, same)) other = absurd cc

  scrub_one-SameAt :
      (options : ScrubOptions) (s : Scrubbed) (id j : List ℕ)
      → Intact s.machine j
      → SameAt s.machine (scrub_one host options s id).1.machine j
  unfolding scrub_one act note_checked note_healthy note_corrupt
  scrub_one-SameAt options s id j intact =
      let found = get s.machine.disk.object_files id in
      elim (Bool-cases (is_healthy found id)) [
        | inl healthy ↦ rw healthy (refl, refl)
        | inr corrupt ↦ rw corrupt (
            after_repair-SameAt options s.machine id j _
              (attempt-Repair host options (note_corrupt (note_checked s) id found) id)
              (elim (Bool-cases (bytes_eq id j)) [
                | inr other ↦ other
                | inl same ↦
                    absurd
                      (ground (arith, Intact-healthy s.machine j intact, bytes_eq_iff id j same))
              ]))
      ]

  and_then-SameAt :
      (m : Machine) (j : List ℕ) (r : Result ContextError (Unit {0}) × Scrubbed)
      (k : Scrubbed → Result ContextError (Unit {0}) × Scrubbed)
      → SameAt m r.1.machine j
      → SameAt m (k r.1).1.machine j
      → SameAt m (and_then r k).1.machine j
  and_then-SameAt m j (ok u, s) k first both = both
  and_then-SameAt m j (err e, s) k first both = first

  scrub_all-SameAt :
      (options : ScrubOptions) (ids : List (List ℕ)) (s : Scrubbed) (j : List ℕ)
      → Intact s.machine j
      → SameAt s.machine (scrub_all host options ids s).1.machine j
  unfolding scrub_all
  scrub_all-SameAt options [] s j intact = (refl, refl)
  scrub_all-SameAt options (id ∷ ids) s j intact =
      let r = scrub_one host options s id in
      let first = scrub_one-SameAt options s id j intact in
      let rest =
        scrub_all-SameAt options ids r.1 j (SameAt-Intact s.machine r.1.machine j first intact) in
      and_then-SameAt s.machine j r (λ s'. scrub_all host options ids s') first
        (SameAt-trans s.machine r.1.machine (scrub_all host options ids r.1).1.machine j first rest)

  record_seal-SameAt :
      (r : Result ContextError Checkpoint × Machine) (s : Scrubbed) (j : List ℕ)
      → SameAt s.machine r.1 j
      → SameAt s.machine (record_seal host r s).1.machine j
  record_seal-SameAt (ok c, m) s j h = h
  record_seal-SameAt (err e, m) s j h = h

  seal_changes-SameAt :
      (options : ScrubOptions) (signer : Option Signer) (s : Scrubbed) (j : List ℕ)
      → SameAt s.machine (seal_changes host options signer s).1.machine j
  unfolding seal_changes
  seal_changes-SameAt options signer s j =
      elim (Bool-cases (options.sealing && not (is_nil s.report.quarantined_ids))) [
        | inl on ↦ rw on (
            record_seal-SameAt (commit host s.machine options.timestamp signer) s j
              (commit-SameAt host s.machine options.timestamp signer j))
        | inr off ↦ rw off (refl, refl)
      ]

  -- An object whose file has the bytes of its id keeps its file and its entry in a scrub, whatever the
  -- options.
  pub scrub-SameAt :
      (m : Machine) (options : ScrubOptions) (signer : Option Signer) (j : List ℕ)
      → Intact m j
      → SameAt m (scrub host m options signer).1.machine j
  unfolding scrub
  scrub-SameAt m options signer j intact =
      let r = scrub_all host options (keys m.store.objects) (start m) in
      let first = scrub_all-SameAt options (keys m.store.objects) (start m) j intact in
      and_then-SameAt m j r (λ s. seal_changes host options signer s) first
        (SameAt-trans m r.1.machine (seal_changes host options signer r.1).1.machine j first
          (seal_changes-SameAt options signer r.1 j))
