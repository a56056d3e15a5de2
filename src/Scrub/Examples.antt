-- ===== src/Scrub/Examples.antt =====
-- src/scrub.rs: a container with a healthy object and one whose bytes changed.
use subnext.Prelude.{ℕ, ◌≡◌, refl, true, false, none, some, List, [], ◌∷◌}
use subnext.Prelude.Bytes.{codes, cmp_bytes}
use subnext.Prelude.Dict.{get}
use subnext.Hash.Stream.{sha256}
use subnext.Hash.Words.{compress}
use subnext.Hash.Hex.{to_hex}
use subnext.Trust.{unsigned}
use subnext.Container.{Host, ObjectMeta}
use subnext.Container.Disk.{Machine}
use subnext.Container.Open.{new_store}
use subnext.Container.Intact.{Intact, Settled, SameAt}
use subnext.Scrub.{ScrubOptions, repairing, scrub}
use subnext.Scrub.Settles.{scrub-Settled}
use subnext.Scrub.Healthy.{scrub-SameAt}

abbrev host : Host
host = record {
  floats = record {
    is_small_integer = λ n. true;
    show_integer = λ n. n ∷ [];
    show = λ n. [];
    read = λ text. none;
    is_finite = λ n. true;
  };
  of_u64 = λ n. n;
  to_u64 = λ n. n;
  encode = λ s. s;
  decode = λ s. some s;
}

abbrev meta_of_bytes : List ℕ → ObjectMeta
meta_of_bytes bytes = record {
  hash = sha256 bytes;
  size = 2;
  generation = 1;
  verification = unsigned;
  locations = [];
}

abbrev good_id : List ℕ
good_id = to_hex (sha256 (codes "hi"))

abbrev bad_id : List ℕ
bad_id = to_hex (sha256 (codes "ho"))

abbrev damaged : Machine
damaged = record {
  store = record (new_store (codes "me")) {
    objects = (good_id, meta_of_bytes (codes "hi")) ∷ (bad_id, meta_of_bytes (codes "ho")) ∷ [];
  };
  disk = record {
    manifest_file = none;
    hwm = none;
    object_files = (good_id, codes "hi") ∷ (bad_id, codes "HO") ∷ [];
    sidecars = [];
    checkpoint_files = [];
    signatures = [];
    quarantine_files = [];
    reasons = [];
    copies = [];
  };
}

scrub-Settled_example : Settled (scrub host damaged (repairing 5) none).1.machine bad_id
scrub-Settled_example = scrub-Settled host damaged (repairing 5) none bad_id refl

good-Intact : Intact damaged good_id
unfolding get cmp_bytes to_hex sha256 compress
good-Intact = (codes "hi", refl, refl)

scrub-SameAt_example : SameAt damaged (scrub host damaged (repairing 5) none).1.machine good_id
scrub-SameAt_example = scrub-SameAt host damaged (repairing 5) none good_id good-Intact

abbrev unsealed : ScrubOptions
unsealed = record (repairing 5) { sealing = false }

quarantined : (scrub host damaged unsealed none).1.report.quarantined_ids ≡ bad_id ∷ []
unfolding scrub new_store get cmp_bytes to_hex sha256 compress
quarantined = refl
