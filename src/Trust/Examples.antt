-- ===== src/Trust/Examples.antt =====
-- src/trust.rs: names, and an object that the development signer signed, at the gateway.
use subnext.Prelude.{◌≡◌, refl, ◌↔◌, ℕ, false, none, some, List, []}
use subnext.Prelude.Bytes.{codes, cmp_bytes}
use subnext.Prelude.Results.{ok, err}
use subnext.Hash.Stream.{sha256}
use subnext.Hash.Tagged.{tagged}
use subnext.Hash.Words.{compress}
use subnext.Trust.{
  verified, revoked, verification_as_str, verification_parse, role_as_str, role_parse,
  tool_authorization, dev_key, dev_sign, dev_verifier, low_trust, trusted, label_parse, Candidate,
  Admitted, ContextGateway, default_policy, schema_hash, admit, policy_denied,
}
use subnext.Trust.Admission.{IsAdmissible, admit_iff}

verification_named : verification_parse (verification_as_str revoked) ≡ some revoked
unfolding verification_parse cmp_bytes
verification_named = refl

role_named : role_parse (role_as_str tool_authorization) ≡ some tool_authorization
unfolding role_parse cmp_bytes
role_named = refl

label_named : label_parse (codes "low_trust") ≡ none
unfolding label_parse cmp_bytes
label_named = refl

abbrev secret : List ℕ
secret = codes "dev"

abbrev gateway : ContextGateway
gateway = record { policy = default_policy; verifier = some (dev_verifier secret) }

abbrev note : Candidate
note = record {
  object_id = codes "note";
  bytes = codes "hi";
  declared_hash = sha256 (codes "hi");
  generation = 3;
  schema_hash = schema_hash;
  label = trusted;
  signature = some (dev_sign secret (codes "hi"));
  signing_key = some dev_key;
  source_objects = [];
  derived = false;
}

abbrev admitted_note : Admitted
admitted_note = record {
  object_id = codes "note";
  verification = verified;
  label = trusted;
  generation = 3;
}

admit_iff_example :
    (admit gateway note ≡ ok admitted_note) ↔ IsAdmissible gateway note admitted_note
admit_iff_example = admit_iff gateway note admitted_note

note_admitted : admit gateway note ≡ ok admitted_note
unfolding admit cmp_bytes sha256 tagged schema_hash default_policy compress
note_admitted = refl

abbrev rumour : Candidate
rumour = record note { label = low_trust }

rumour_refused : admit gateway rumour ≡ err (policy_denied low_trust)
unfolding admit cmp_bytes sha256 tagged schema_hash default_policy compress
rumour_refused = refl
