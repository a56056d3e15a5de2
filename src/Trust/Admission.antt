-- ===== src/Trust/Admission.antt =====
-- src/trust.rs: what the gateway admits.
use subnext.Prelude.{
  ◌≡◌, refl, sym, ap, subst, ◌↔◌, ◌⊎◌, ℕ, ◌≤◌, Bool, true, false, not, ◌&&◌, ◌||◌, Option, none,
  some, List, ltb, arith,
}
use subnext.Prelude.Bytes.{bytes_eq, bytes_eq_iff, bytes_eq_refl}
use subnext.Prelude.Results.{ok, >>=-eq-ok, guard-eq-ok, ok_eq}
use subnext.Hash.Stream.{sha256}
use subnext.Trust.{
  Verification, unsigned, signed, verified, KeyId, Verifier, Candidate, Admitted, AdmissionPolicy,
  ContextGateway, has_label, is_nil, check_with, without_signature, check_pair, check_signature,
  admit,
}

-- A verifier accepts the signature under a key that is not revoked.
abbrev Accepts : Verifier → List ℕ → List ℕ → KeyId → Type 0
Accepts verifier bytes signature key =
    (verifier.is_revoked key ≡ false) × (verifier.verify key bytes signature ≡ true)

-- What a verdict on a signature and its key stands for, under a policy that may require one.
unfoldable pub IsAuthentic :
    Bool → Option Verifier → List ℕ → Option (List ℕ) → Option KeyId → Verification → Type 0
IsAuthentic required none bytes (some signature) (some key) v = (required ≡ false) × (v ≡ signed)
IsAuthentic required (some verifier) bytes (some signature) (some key) v =
    Accepts verifier bytes signature key × (v ≡ verified)
IsAuthentic required verifier bytes (some signature) none v = (required ≡ false) × (v ≡ unsigned)
IsAuthentic required verifier bytes none key v = (required ≡ false) × (v ≡ unsigned)

-- The conditions of an admission, and the object that is admitted.
pub record IsAdmissible (gateway : ContextGateway) (c : Candidate) (a : Admitted) : Type 0 where
  pub intact : sha256 c.bytes ≡ c.declared_hash
  pub authentic :
      IsAuthentic gateway.policy.require_signature gateway.verifier c.bytes c.signature
        c.signing_key a.verification
  pub traced : (c.derived ≡ false) ⊎ (is_nil c.source_objects ≡ false)
  pub above_floor : gateway.policy.generation_floor ≤ c.generation
  pub below_ceiling : c.generation ≤ gateway.policy.generation_ceiling
  pub same_schema : c.schema_hash ≡ gateway.policy.schema_hash
  pub allowed : has_label gateway.policy.allowed_labels c.label ≡ true
  pub same_id : a.object_id ≡ c.object_id
  pub same_label : a.label ≡ c.label
  pub same_generation : a.generation ≡ c.generation

without_signature_iff :
    (policy : AdmissionPolicy) (v : Verification)
    → (without_signature policy ≡ ok v) ↔ ((policy.require_signature ≡ false) × (v ≡ unsigned))
without_signature_iff policy v = ground arith

check_with_iff :
    (policy : AdmissionPolicy) (verifier : Option Verifier) (key : KeyId) (bytes signature : List ℕ)
    (v : Verification)
    → (check_with policy verifier key bytes signature ≡ ok v)
      ↔ IsAuthentic policy.require_signature verifier bytes (some signature) (some key) v
unfolding IsAuthentic
check_with_iff policy none key bytes signature v = ground arith
check_with_iff policy (some verifier) key bytes signature v = ground arith

check_pair_iff :
    (gateway : ContextGateway) (bytes : List ℕ) (signature : Option (List ℕ)) (key : Option KeyId)
    (v : Verification)
    → (check_pair gateway bytes signature key ≡ ok v)
      ↔ IsAuthentic gateway.policy.require_signature gateway.verifier bytes signature key v
unfolding IsAuthentic
check_pair_iff gateway bytes (some signature) (some key) v =
    check_with_iff gateway.policy gateway.verifier key bytes signature v
check_pair_iff gateway bytes (some signature) none v = without_signature_iff gateway.policy v
check_pair_iff gateway bytes none key v = without_signature_iff gateway.policy v

admitted_as : Candidate → Verification → Admitted
admitted_as c v = record {
  object_id = c.object_id;
  verification = v;
  label = c.label;
  generation = c.generation;
}

-- The chain of tests, with the verdict of the signature.
admit-eq-ok :
    (gateway : ContextGateway) (c : Candidate) (a : Admitted)
    → admit gateway c ≡ ok a
    → (v : Verification) × (bytes_eq (sha256 c.bytes) c.declared_hash ≡ true)
      × (check_signature gateway c ≡ ok v)
      × (not (c.derived && is_nil c.source_objects) ≡ true)
      × (not (
            ltb c.generation gateway.policy.generation_floor
            || ltb gateway.policy.generation_ceiling c.generation)
          ≡ true)
      × (bytes_eq c.schema_hash gateway.policy.schema_hash ≡ true)
      × (has_label gateway.policy.allowed_labels c.label ≡ true)
      × (admitted_as c v ≡ a)
unfolding admit admitted_as
admit-eq-ok gateway c a h =
    let (intact, h1) = guard-eq-ok _ _ _ h in
    let (v, verdict, h2) = >>=-eq-ok (check_signature gateway c) _ h1 in
    let (traced, h3) = guard-eq-ok _ _ _ h2 in
    let (current, h4) = guard-eq-ok _ _ _ h3 in
    let (schema, h5) = guard-eq-ok _ _ _ h4 in
    let (allowed, h6) = guard-eq-ok _ _ _ h5 in
    (v, intact, verdict, traced, current, schema, allowed, ok_eq _ refl h6)

IsAdmissible-of_admit :
    (gateway : ContextGateway) (c : Candidate) (a : Admitted)
    → admit gateway c ≡ ok a
    → IsAdmissible gateway c a
unfolding check_signature admitted_as
IsAdmissible-of_admit gateway c a h =
    let (v, intact, verdict, traced, current, schema, allowed, last) = admit-eq-ok gateway c a h in
    let same_verdict : v ≡ a.verification = ap (λ x. x.verification) last in
    record {
      intact = bytes_eq_iff _ _ intact;
      authentic =
          subst
            (λ w.
              IsAuthentic gateway.policy.require_signature gateway.verifier c.bytes c.signature
                c.signing_key w)
            same_verdict ((check_pair_iff gateway c.bytes c.signature c.signing_key v).0 verdict);
      traced = ground arith;
      above_floor = ground arith;
      below_ceiling = ground arith;
      same_schema = bytes_eq_iff _ _ schema;
      allowed = allowed;
      same_id = sym (ap (λ x. x.object_id) last);
      same_label = sym (ap (λ x. x.label) last);
      same_generation = sym (ap (λ x. x.generation) last);
    }

admitted_eq :
    (c : Candidate) (a : Admitted)
    → a.object_id ≡ c.object_id
    → a.label ≡ c.label
    → a.generation ≡ c.generation
    → admitted_as c a.verification ≡ a
unfolding admitted_as
admitted_eq c a same_id same_label same_generation = cc

admit-of_IsAdmissible :
    (gateway : ContextGateway) (c : Candidate) (a : Admitted)
    → IsAdmissible gateway c a
    → admit gateway c ≡ ok a
unfolding admit check_signature admitted_as
admit-of_IsAdmissible gateway c a h =
    let intact : bytes_eq (sha256 c.bytes) c.declared_hash ≡ true =
      subst (λ d. bytes_eq (sha256 c.bytes) d ≡ true) h.intact (bytes_eq_refl (sha256 c.bytes)) in
    let verdict =
      (check_pair_iff gateway c.bytes c.signature c.signing_key a.verification).1 h.authentic in
    let traced : not (c.derived && is_nil c.source_objects) ≡ true = ground arith in
    let current : not (
          ltb c.generation gateway.policy.generation_floor
          || ltb gateway.policy.generation_ceiling c.generation)
        ≡ true =
      ground (arith, h.above_floor, h.below_ceiling) in
    let schema : bytes_eq c.schema_hash gateway.policy.schema_hash ≡ true =
      subst (λ d. bytes_eq c.schema_hash d ≡ true) h.same_schema (bytes_eq_refl c.schema_hash) in
    let allowed = h.allowed in
    rw (intact, verdict, traced, current, schema, allowed)
      (ap ok (admitted_eq c a h.same_id h.same_label h.same_generation))

-- The gateway admits an object exactly where its bytes have the declared digest, the verdict on its
-- signature is the one that the policy asks for, derived content names its sources, the generation is
-- within the bounds, the schema is the policy's and the label is allowed; and it admits it under its own
-- id, label and generation, with that verdict. Where the policy asks for no signature, the verdict may be
-- `unsigned`, or `signed` without a check where the gateway has no verifier; and a label is allowed where
-- the policy lists it, `untrusted` included.
pub admit_iff :
    (gateway : ContextGateway) (c : Candidate) (a : Admitted)
    → (admit gateway c ≡ ok a) ↔ IsAdmissible gateway c a
admit_iff gateway c a = (IsAdmissible-of_admit gateway c a, admit-of_IsAdmissible gateway c a)
