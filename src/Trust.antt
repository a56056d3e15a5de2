-- ===== src/Trust.antt =====
-- src/trust.rs: keys, labels and the gateway that admits an object. The traits `Signer` and `Verifier`
-- are records of their methods. A `BTreeSet` of labels is the list of its labels in order.
pub mod Admission
mod Examples
use subnext.Prelude.{
  ℕ, ◌^◌, ◌-◌, Bool, true, false, not, ◌&&◌, ◌||◌, Option, none, some, List, [], ◌∷◌, ◌++◌, map,
  ltb, leb, ◌==◌, if◌then◌else◌,
}
use subnext.Prelude.Bytes.{codes, bytes_eq}
use subnext.Prelude.Results.{Result, ok, err, ◌>>=◌, ◌>>◌, guard}
use subnext.Hash.Stream.{sha256}
use subnext.Hash.Tagged.{tagged}
use subnext.Nodes.{join_comma}

pub data Verification : Type 0 where
  unsigned signed verified invalid revoked quarantined : Verification

pub verification_as_str : Verification → List ℕ
verification_as_str unsigned = codes "unsigned"
verification_as_str signed = codes "signed"
verification_as_str verified = codes "verified"
verification_as_str invalid = codes "invalid"
verification_as_str revoked = codes "revoked"
verification_as_str quarantined = codes "quarantined"

-- The first value of a list whose name is the text.
unfoldable pub find_name {ℓ} : {A : Type ℓ} → (A → List ℕ) → List A → List ℕ → Option A
find_name name [] text = none
find_name name (a ∷ rest) text = if bytes_eq (name a) text then some a else find_name name rest text

abbrev all_verifications : List Verification
all_verifications = unsigned ∷ signed ∷ verified ∷ invalid ∷ revoked ∷ quarantined ∷ []

pub verification_parse : List ℕ → Option Verification
unfolding find_name verification_as_str
verification_parse text = find_name verification_as_str all_verifications text

pub data KeyRole : Type 0 where
  context_signing context_encryption agent_identity tool_authorization backup_signing : KeyRole

abbrev all_roles : List KeyRole
all_roles =
    context_signing ∷ context_encryption ∷ agent_identity ∷ tool_authorization ∷ backup_signing ∷ []

pub role_as_str : KeyRole → List ℕ
role_as_str context_signing = codes "context-signing"
role_as_str context_encryption = codes "context-encryption"
role_as_str agent_identity = codes "agent-identity"
role_as_str tool_authorization = codes "tool-authorization"
role_as_str backup_signing = codes "backup-signing"

pub role_parse : List ℕ → Option KeyRole
unfolding find_name role_as_str
role_parse text = find_name role_as_str all_roles text

abbrev pub is_context_signing : KeyRole → Bool
is_context_signing context_signing = true
is_context_signing _ = false

pub record KeyId : Type 0 where
  pub role : KeyRole
  pub id : List ℕ

-- `Display` of a key
abbrev pub key_text : KeyId → List ℕ
key_text key = role_as_str key.role ++ (b':' ∷ key.id)

pub record Signer : Type 0 where
  pub key_id : KeyId
  pub sign : List ℕ → List ℕ
  pub is_cryptographic : Bool

pub record Verifier : Type 0 where
  pub verify : KeyId → List ℕ → List ℕ → Bool
  pub is_revoked : KeyId → Bool

-- `InsecureDevSigner`, by its secret
abbrev dev_sign : List ℕ → List ℕ → List ℕ
dev_sign secret message = tagged (codes "dcr:dev-signature") (secret ∷ message ∷ [])

abbrev pub dev_key : KeyId
dev_key = record { role = context_signing; id = codes "dev-insecure" }

abbrev dev_signer : List ℕ → Signer
dev_signer secret = record { key_id = dev_key; sign = dev_sign secret; is_cryptographic = false }

abbrev pub dev_verifier : List ℕ → Verifier
dev_verifier secret = record {
  verify = λ key message signature.
      is_context_signing key.role && bytes_eq (dev_sign secret message) signature;
  is_revoked = λ key. false;
}

pub data TrustLabel : Type 0 where
  trusted external low_trust untrusted : TrustLabel

abbrev all_labels : List TrustLabel
all_labels = trusted ∷ external ∷ low_trust ∷ untrusted ∷ []

pub label_as_str : TrustLabel → List ℕ
label_as_str trusted = codes "trusted"
label_as_str external = codes "external"
label_as_str low_trust = codes "low-trust"
label_as_str untrusted = codes "untrusted"

unfoldable pub label_parse : List ℕ → Option TrustLabel
unfolding find_name label_as_str
label_parse text = find_name label_as_str all_labels text

abbrev label_index : TrustLabel → ℕ
label_index trusted = 0
label_index external = 1
label_index low_trust = 2
label_index untrusted = 3

pub data Rejection : Type 0 where
  integrity_failed : List ℕ → List ℕ → Rejection
  signature_invalid : KeyId → Rejection
  key_revoked : KeyId → Rejection
  signature_missing : Rejection
  provenance_missing : Rejection
  generation_rejected : ℕ → ℕ → ℕ → Rejection
  schema_mismatch : List ℕ → List ℕ → Rejection
  -- Without the text of the reason, which follows from the label.
  policy_denied : TrustLabel → Rejection

pub record Candidate : Type 0 where
  pub object_id : List ℕ
  pub bytes : List ℕ
  pub declared_hash : List ℕ
  pub generation : ℕ
  pub schema_hash : List ℕ
  pub label : TrustLabel
  pub signature : Option (List ℕ)
  pub signing_key : Option KeyId
  pub source_objects : List (List ℕ)
  pub derived : Bool

pub record Admitted : Type 0 where
  pub object_id : List ℕ
  pub verification : Verification
  pub label : TrustLabel
  pub generation : ℕ

pub record AdmissionPolicy : Type 0 where
  pub generation_floor : ℕ
  pub generation_ceiling : ℕ
  pub schema_hash : List ℕ
  pub allowed_labels : List TrustLabel
  pub require_signature : Bool

abbrev pub schema_version : List ℕ
schema_version = codes "dcr.context/1"

unfoldable pub schema_hash : List ℕ
schema_hash = sha256 schema_version

unfoldable pub default_policy : AdmissionPolicy
default_policy = record {
  generation_floor = 0;
  generation_ceiling = 2 ^ 64 - 1;
  schema_hash = schema_hash;
  allowed_labels = trusted ∷ external ∷ [];
  require_signature = false;
}

unfoldable pub policy_hash : AdmissionPolicy → List ℕ
unfolding label_as_str
policy_hash policy = tagged (codes "dcr:policy") (
    policy.schema_hash
    ∷ join_comma (map label_as_str policy.allowed_labels)
    ∷ (if policy.require_signature then codes "sig" else codes "nosig")
    ∷ [])

pub record ContextGateway : Type 0 where
  pub policy : AdmissionPolicy
  pub verifier : Option Verifier

-- `allowed_labels.contains`
pub has_label : List TrustLabel → TrustLabel → Bool
has_label [] label = false
has_label (l ∷ ls) label = label_index l == label_index label || has_label ls label

abbrev pub is_nil {ℓ} : {A : Type ℓ} → List A → Bool
is_nil [] = true
is_nil (a ∷ rest) = false

-- A signature and its key, with the verifier.
abbrev pub check_with :
    AdmissionPolicy → Option Verifier → KeyId → List ℕ → List ℕ → Result Rejection Verification
check_with policy none key bytes signature =
    if policy.require_signature then err (signature_invalid key) else ok signed
check_with policy (some verifier) key bytes signature =
    if verifier.is_revoked key
    then err (key_revoked key)
    else if verifier.verify key bytes signature
    then ok verified
    else err (signature_invalid key)

abbrev pub without_signature : AdmissionPolicy → Result Rejection Verification
without_signature policy = if policy.require_signature then err signature_missing else ok unsigned

abbrev pub check_pair :
    ContextGateway → List ℕ → Option (List ℕ) → Option KeyId → Result Rejection Verification
check_pair gateway bytes (some signature) (some key) =
    check_with gateway.policy gateway.verifier key bytes signature
check_pair gateway bytes (some signature) none = without_signature gateway.policy
check_pair gateway bytes none key = without_signature gateway.policy

pub check_signature : ContextGateway → Candidate → Result Rejection Verification
check_signature gateway c = check_pair gateway c.bytes c.signature c.signing_key

unfoldable pub admit : ContextGateway → Candidate → Result Rejection Admitted
unfolding check_signature has_label
admit gateway c =
    let policy = gateway.policy in
    do
      guard (bytes_eq (sha256 c.bytes) c.declared_hash)
          (integrity_failed c.declared_hash (sha256 c.bytes))
      verification ← check_signature gateway c
      guard (not (c.derived && is_nil c.source_objects)) provenance_missing
      guard
          (not (
            ltb c.generation policy.generation_floor || ltb policy.generation_ceiling c.generation))
          (generation_rejected c.generation policy.generation_floor policy.generation_ceiling)
      guard (bytes_eq c.schema_hash policy.schema_hash)
          (schema_mismatch policy.schema_hash c.schema_hash)
      guard (has_label policy.allowed_labels c.label) (policy_denied c.label)
      ok (record {
        object_id = c.object_id;
        verification = verification;
        label = c.label;
        generation = c.generation;
      })
