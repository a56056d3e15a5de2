-- ===== src/Hash/Examples.antt =====
-- src/hash.rs: the published test vector, and the theorems at concrete inputs.
use subnext.Prelude.{ℕ, ◌≡◌, refl, ◌⊎◌, some, List, [], ◌∷◌, map, length, replicate, arith}
use mathlib.Core.List.{flatten}
use subnext.Hash.Words.{compress}
use subnext.Hash.Stream.{sha256, new, update, finalize}
use subnext.Hash.Stream.Padding.{spec, new-IsReady}
use subnext.Hash.Stream.Digest.{update_all, sha256-flatten, sha256_refines, finalize-update_append}
use subnext.Hash.Hex.{
  to_hex, parse_hex, parse_pairs, to_digit, to_lower, IsDigest, parse_hex-to_hex, to_hex-parse_hex,
}
use subnext.Hash.Tagged.{frame, Collide, tagged-injective}

-- sha256(b"abc")
abc :
    sha256 (97 ∷ 98 ∷ 99 ∷ [])
    ≡ 0xba ∷ 0x78 ∷ 0x16 ∷ 0xbf ∷ 0x8f ∷ 0x01 ∷ 0xcf ∷ 0xea ∷ 0x41 ∷ 0x41 ∷ 0x40 ∷ 0xde ∷ 0x5d
      ∷ 0xae ∷ 0x22 ∷ 0x23 ∷ 0xb0 ∷ 0x03 ∷ 0x61 ∷ 0xa3 ∷ 0x96 ∷ 0x17 ∷ 0x7a ∷ 0x9c ∷ 0xb4 ∷ 0x10
      ∷ 0xff ∷ 0x61 ∷ 0xf2 ∷ 0x00 ∷ 0x15 ∷ 0xad ∷ []
unfolding sha256 compress
abc = refl

-- Two chunks, "abc" in all.
abbrev chunks : List (List ℕ)
chunks = (97 ∷ 98 ∷ []) ∷ (99 ∷ []) ∷ []

sha256-flatten_example : finalize (update_all new chunks) ≡ sha256 (flatten chunks)
sha256-flatten_example = sha256-flatten chunks

sha256_refines_example : sha256 (97 ∷ 98 ∷ 99 ∷ []) ≡ spec (97 ∷ 98 ∷ 99 ∷ [])
sha256_refines_example = sha256_refines (97 ∷ 98 ∷ 99 ∷ [])

finalize-update_append_example :
    finalize (update (update new (97 ∷ [])) (98 ∷ [])) ≡ finalize (update new (97 ∷ 98 ∷ []))
finalize-update_append_example = finalize-update_append new (97 ∷ []) (98 ∷ []) new-IsReady

parse_hex-to_hex_example : parse_hex (to_hex (replicate 32 171)) ≡ some (replicate 32 171)
parse_hex-to_hex_example = parse_hex-to_hex (replicate 32 171) (omega arith)

-- Upper case is accepted.
abbrev upper_text : List ℕ
upper_text = replicate 64 b'A'

abbrev upper_bytes : List ℕ
upper_bytes = replicate 32 170

upper : parse_hex upper_text ≡ some upper_bytes
unfolding parse_hex parse_pairs to_digit
upper = refl

to_hex-parse_hex_example :
    (length upper_text ≡ 64) × IsDigest upper_bytes × (to_hex upper_bytes ≡ map to_lower upper_text)
to_hex-parse_hex_example = to_hex-parse_hex upper_text upper_bytes upper

abbrev tag : List ℕ
tag = 1 ∷ []

abbrev parts : List (List ℕ)
parts = (2 ∷ 3 ∷ []) ∷ []

tagged-injective_example :
    (tag ≡ tag) × (parts ≡ parts) ⊎ Collide (frame tag parts) (frame tag parts)
tagged-injective_example =
    tagged-injective tag tag parts parts (omega arith) (omega arith) (omega arith) (omega arith)
      refl
