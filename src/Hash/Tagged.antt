-- ===== src/Hash/Tagged.antt =====
-- src/hash.rs: `tagged`, the digest of a tag and its length-prefixed parts.
use subnext.Prelude.{
  ℕ, ◌+◌, ◌*◌, ◌%◌, ◌<◌, ◌≡◌, ◌≢◌, refl, sym, ap, ◌∙◌, ◌⊎◌, inl, inr, ⊎_elim, List, [], ◌∷◌, ◌++◌,
  length, take, drop, take-append, drop-append, All, arith,
}
use native.Mathlib.Decide.{ℕ_discrete}
use mathlib.Core.List.{flatten}
use subnext.Hash.Stream.{Sha256, new, update, finalize, sha256, be64, be32, u64_mod}
use subnext.Hash.Stream.Digest.{update_all, sha256-flatten}

-- The loop over `parts`.
unfoldable pub update_parts : Sha256 → List (List ℕ) → Sha256
update_parts h [] = h
update_parts h (part ∷ parts) =
    update_parts (update (update h (be64 (length part % u64_mod))) part) parts

unfoldable pub tagged : List ℕ → List (List ℕ) → List ℕ
unfolding update_parts
tagged tag parts =
    finalize (update_parts (update (update new (be64 (length tag % u64_mod))) tag) parts)

-- The chunks that `tagged` feeds to the hasher.
frame_chunks : List (List ℕ) → List (List ℕ)
frame_chunks [] = []
frame_chunks (part ∷ parts) = be64 (length part % u64_mod) ∷ part ∷ frame_chunks parts

-- The bytes that `tagged` hashes.
pub frame : List ℕ → List (List ℕ) → List ℕ
frame tag parts = flatten (frame_chunks (tag ∷ parts))

update_parts-chunks :
    (h : Sha256) (parts : List (List ℕ)) → update_parts h parts ≡ update_all h (frame_chunks parts)
unfolding update_parts update_all frame_chunks
update_parts-chunks h [] = refl
update_parts-chunks h (part ∷ parts) =
    update_parts-chunks (update (update h (be64 (length part % u64_mod))) part) parts

-- `tagged` is SHA-256 of the framed message.
pub tagged-frame :
    (tag : List ℕ) (parts : List (List ℕ)) → tagged tag parts ≡ sha256 (frame tag parts)
unfolding tagged frame frame_chunks update_all
tagged-frame tag parts =
    ap finalize (update_parts-chunks (update (update new (be64 (length tag % u64_mod))) tag) parts)
    ∙ sha256-flatten (frame_chunks (tag ∷ parts))

bytes-discrete : Discrete (List ℕ)
bytes-discrete = hlevel ℕ_discrete

-- The length of a slice fits a u64.
abbrev pub Fits : List ℕ → Type 0
Fits p = length p < u64_mod

from_be : List ℕ → ℕ
from_be (a ∷ b ∷ c ∷ d ∷ e ∷ f ∷ g ∷ h ∷ _) =
    ((((((a * 256 + b) * 256 + c) * 256 + d) * 256 + e) * 256 + f) * 256 + g) * 256 + h
from_be _ = 0

from_be-be64 : (n : ℕ) (rest : List ℕ) → n < u64_mod → from_be (be64 n ++ rest) ≡ n
unfolding from_be
from_be-be64 n rest h = omega arith

be64-injective :
    (n m : ℕ) (xs ys : List ℕ)
    → n < u64_mod
    → m < u64_mod
    → be64 n ++ xs ≡ be64 m ++ ys
    → (n ≡ m) × (xs ≡ ys)
be64-injective n m xs ys p q e = (
  sym (from_be-be64 n xs p) ∙ (ap from_be e ∙ from_be-be64 m ys q),
  sym (drop-append 8 (be64 n) xs refl) ∙ (ap (drop 8) e ∙ drop-append 8 (be64 m) ys refl),
)

append-injective :
    (n : ℕ) (a b xs ys : List ℕ)
    → length a ≡ n
    → length b ≡ n
    → a ++ xs ≡ b ++ ys
    → (a ≡ b) × (xs ≡ ys)
append-injective n a b xs ys p q e = (
  sym (take-append n a xs p) ∙ (ap (take n) e ∙ take-append n b ys q),
  sym (drop-append n a xs p) ∙ (ap (drop n) e ∙ drop-append n b ys q),
)

chunk-injective :
    (p q xs ys : List ℕ)
    → Fits p
    → Fits q
    → be64 (length p % u64_mod) ++ (p ++ xs) ≡ be64 (length q % u64_mod) ++ (q ++ ys)
    → (p ≡ q) × (xs ≡ ys)
chunk-injective p q xs ys fp fq e =
    let (len, rest) =
      be64-injective (length p % u64_mod) (length q % u64_mod) (p ++ xs) (q ++ ys) (omega arith)
        (omega arith) e in
    append-injective (length q) p q xs ys (omega arith) refl rest

frame_chunks-injective :
    (ps qs : List (List ℕ))
    → All Fits ps
    → All Fits qs
    → flatten (frame_chunks ps) ≡ flatten (frame_chunks qs)
    → ps ≡ qs
unfolding frame_chunks flatten
frame_chunks-injective [] [] fp fq e = refl
frame_chunks-injective [] (q ∷ qs) fp fq e = cc
frame_chunks-injective (p ∷ ps) [] fp fq e = cc
frame_chunks-injective (p ∷ ps) (q ∷ qs) fp fq e =
    let (head, tail) =
      chunk-injective p q (flatten (frame_chunks ps)) (flatten (frame_chunks qs)) fp.0 fq.0 e in
    cc (head, frame_chunks-injective ps qs fp.1 fq.1 tail)

-- The framed message determines the tag and the parts.
pub frame-injective :
    (tag tag' : List ℕ) (parts parts' : List (List ℕ))
    → Fits tag
    → Fits tag'
    → All Fits parts
    → All Fits parts'
    → frame tag parts ≡ frame tag' parts'
    → (tag ≡ tag') × (parts ≡ parts')
unfolding frame
frame-injective tag tag' parts parts' ft ft' fp fp' e =
    let same = frame_chunks-injective (tag ∷ parts) (tag' ∷ parts') (ft, fp) (ft', fp') e in
    (cc same, cc same)

-- A digest has 32 bytes.
length-finalize : (h : Sha256) → length (finalize h) ≡ 32
unfolding finalize subnext.Hash.Stream.words_bytes
length-finalize h = refl

pub length-tagged : (tag : List ℕ) (parts : List (List ℕ)) → length (tagged tag parts) ≡ 32
unfolding tagged
length-tagged tag parts =
    length-finalize (update_parts (update (update new (be64 (length tag % u64_mod))) tag) parts)

-- The two messages differ and have one digest.
abbrev pub Collide : List ℕ → List ℕ → Type 0
Collide x y = (x ≢ y) × (sha256 x ≡ sha256 y)

-- Equal digests come from equal messages, or the two messages collide.
pub sha256-cases : (x y : List ℕ) → sha256 x ≡ sha256 y → (x ≡ y) ⊎ Collide x y
sha256-cases x y e = elim (bytes-discrete x y) [ yes same ↦ inl same | no differ ↦ inr (differ, e) ]

-- Equal tagged digests of tags and parts whose lengths fit 64 bits have equal tags and equal parts, or the
-- two framed messages collide.
pub tagged-injective :
    (tag tag' : List ℕ) (parts parts' : List (List ℕ))
    → Fits tag
    → Fits tag'
    → All Fits parts
    → All Fits parts'
    → tagged tag parts ≡ tagged tag' parts'
    → (tag ≡ tag') × (parts ≡ parts') ⊎ Collide (frame tag parts) (frame tag' parts')
tagged-injective tag tag' parts parts' ft ft' fp fp' e =
    ⊎_elim (λ same. inl (frame-injective tag tag' parts parts' ft ft' fp fp' same)) inr
      (sha256-cases (frame tag parts) (frame tag' parts')
        (sym (tagged-frame tag parts) ∙ (e ∙ tagged-frame tag' parts')))
