-- ===== src/Container/Gate.antt =====
-- src/context_store.rs: what `admit` lets through.
use subnext.Prelude.{ℕ, ◌≡◌, refl, ap, subst, false, Option, none, some, List}
use subnext.Prelude.Bytes.{bytes_eq, bytes_eq_iff}
use subnext.Prelude.Dict.{get}
use subnext.Prelude.Results.{Result, ok, err, ok_or, >>=-eq-ok, guard-eq-ok, ok_eq}
use subnext.Hash.Stream.{sha256}
use subnext.Hash.Hex.{to_hex}
use subnext.Trust
use subnext.Trust.{Verifier, Admitted, Rejection, ContextGateway, unsigned}
use subnext.Trust.Admission.{IsAdmissible, admit_iff, IsAuthentic}
use subnext.Container.{Host, ObjectRecord, corrupt, missing}
use subnext.Container.Front.{parse_bytes, record_of}
use subnext.Container.Disk.{Machine, read_object_bytes}
use subnext.Container.Store.{admit_object, refusal, candidate_of, dated}

ok_or-eq-ok :
    {E A : Type 0} (found : Option A) (e : E) (a : A) → ok_or found e ≡ ok a → found ≡ some a
ok_or-eq-ok none e a h = absurd cc
ok_or-eq-ok (some b) e a h = ap some (ok_eq _ refl h)

-- A read that succeeds gives bytes of the address.
read_object_bytes-Intact :
    (m : Machine) (id bytes : List ℕ)
    → read_object_bytes m.disk id ≡ ok bytes
    → (get m.disk.object_files id ≡ some bytes) × (to_hex (sha256 bytes) ≡ id)
unfolding read_object_bytes
read_object_bytes-Intact m id bytes h =
    let (found, there, h1) = >>=-eq-ok (ok_or (get m.disk.object_files id) (missing id)) _ h in
    let (hash, h2) = guard-eq-ok (bytes_eq (to_hex (sha256 found)) id) (corrupt id) (ok found) h1 in
    let same : found ≡ bytes = ok_eq (ok found) refl h2 in
    (
      ok_or-eq-ok _ (missing id) bytes
          (subst (λ b. ok_or (get m.disk.object_files id) (missing id) ≡ ok b) same there),
      subst (λ b. to_hex (sha256 b) ≡ id) same (bytes_eq_iff _ _ hash),
    )

module _ (host : Host) where
  refusal-eq-ok :
      (id : List ℕ) (r : Result Rejection Admitted) (a : Admitted)
      → refusal host id r ≡ ok a
      → r ≡ ok a
  refusal-eq-ok id (ok b) a h = ap ok (ok_eq _ refl h)
  refusal-eq-ok id (err e) a h = absurd cc

  -- The gateway that a container asks.
  abbrev pub gateway_of : Machine → Option Verifier → ContextGateway
  gateway_of m verifier = record { policy = m.store.policy; verifier = verifier }

  admit_object-chain :
      (m : Machine) (id : List ℕ) (verifier : Option Verifier) (r : ObjectRecord) (a : Admitted)
      → admit_object host m id verifier ≡ ok (r, a)
      → (bytes : List ℕ) × (read_object_bytes m.disk id ≡ ok bytes)
        × (Trust.admit (gateway_of m verifier) (candidate_of host m id bytes r) ≡ ok a)
  unfolding admit_object
  admit_object-chain m id verifier r a h =
      let (bytes, read, h1) = >>=-eq-ok (read_object_bytes m.disk id) _ h in
      let (value, parsed, h2) = >>=-eq-ok (parse_bytes host bytes) _ h1 in
      let (r', made, h3) = >>=-eq-ok (record_of value) _ h2 in
      let candidate = candidate_of host m id bytes (dated host m id r') in
      let (b, passed, h4) =
        >>=-eq-ok (refusal host id (Trust.admit (gateway_of m verifier) candidate)) _ h3 in
      let same : (dated host m id r', b) ≡ (r, a) = ok_eq _ refl h4 in
      let moved =
        subst
          (λ (p : ObjectRecord × Admitted).
            refusal host id (Trust.admit (gateway_of m verifier) (candidate_of host m id bytes p.0))
            ≡ ok p.1)
          same passed in
      (bytes, read, refusal-eq-ok id _ a moved)

  -- The candidate has no signature, so the verdict is that of an unsigned object.
  candidate_of-unsigned :
      (m : Machine) (id bytes : List ℕ) (verifier : Option Verifier) (r : ObjectRecord)
      (a : Admitted)
      → IsAdmissible (gateway_of m verifier) (candidate_of host m id bytes r) a
      → (m.store.policy.require_signature ≡ false) × (a.verification ≡ unsigned)
  unfolding candidate_of IsAuthentic
  candidate_of-unsigned m id bytes none r a h = h.authentic
  candidate_of-unsigned m id bytes (some verifier) r a h = h.authentic

  -- An object that the container admits has the bytes of its id, meets every condition of the gateway,
  -- and is admitted as unsigned under a policy that requires no signature.
  pub admit_object-IsAdmissible :
      (m : Machine) (id : List ℕ) (verifier : Option Verifier) (r : ObjectRecord) (a : Admitted)
      → admit_object host m id verifier ≡ ok (r, a)
      → (bytes : List ℕ) × (get m.disk.object_files id ≡ some bytes)
        × (to_hex (sha256 bytes) ≡ id)
        × IsAdmissible (gateway_of m verifier) (candidate_of host m id bytes r) a
        × (m.store.policy.require_signature ≡ false)
        × (a.verification ≡ unsigned)
  admit_object-IsAdmissible m id verifier r a h =
      let (bytes, read, passed) = admit_object-chain m id verifier r a h in
      let (found, hash) = read_object_bytes-Intact m id bytes read in
      let admissible =
        (admit_iff (gateway_of m verifier) (candidate_of host m id bytes r) a).0 passed in
      let (required, verdict) = candidate_of-unsigned m id bytes verifier r a admissible in
      (bytes, found, hash, admissible, required, verdict)
