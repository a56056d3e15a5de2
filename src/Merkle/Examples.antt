-- ===== src/Merkle/Examples.antt =====
-- src/merkle.rs: the theorems at concrete inputs.
use subnext.Prelude.{ℕ, ◌≡◌, refl, ◌⊎◌, true, none, some, List, [], ◌∷◌, replicate, arith}
use subnext.Prelude.Bytes.{cmp_bytes, bytes_eq_refl, eq_of_cmp, sort_by}
use subnext.Merkle.{
  Entry, Step, right, build, root, proof, verify_proof, leaf_digest, node_digest, climb, last_first,
  build_levels, next_level, sorted_leaves,
}
use subnext.Merkle.Leaves.{lookup}
use subnext.Merkle.Canonical.{build-SameMap}
use subnext.Merkle.Inclusion.{verify_proof-proof, proof-absent}
use subnext.Merkle.Tree.{tree_of}
use subnext.Merkle.Binding.{lookup-verify_proof, RootClash}
use subnext.Merkle.Ascent.{along, start, leaf_digest-Fits}

-- Two objects, "a" and "b", the second of them twice, with contents of 32 bytes.
abbrev ones : List ℕ
ones = replicate 32 1

abbrev twos : List ℕ
twos = replicate 32 2

abbrev threes : List ℕ
threes = replicate 32 3

abbrev objects : List Entry
objects = (98 ∷ [], ones) ∷ (97 ∷ [], twos) ∷ (98 ∷ [], threes) ∷ []

abbrev objects' : List Entry
objects' = (97 ∷ [], twos) ∷ (98 ∷ [], ones) ∷ []

lookup_a : lookup (97 ∷ []) objects ≡ some twos
unfolding lookup cmp_bytes
lookup_a = refl

lookup_c : lookup (99 ∷ []) objects ≡ none
unfolding lookup cmp_bytes
lookup_c = refl

verify_proof-proof_example :
    (steps : List Step) × (proof (build objects) (97 ∷ []) ≡ some steps)
    × (verify_proof (97 ∷ []) twos steps (root (build objects)) ≡ true)
verify_proof-proof_example = verify_proof-proof objects (97 ∷ []) twos lookup_a

-- The digest of "b" stands beside that of "a".
abbrev steps_a : List Step
steps_a = record { sibling = leaf_digest (98 ∷ []) ones; side = right } ∷ []

verifies : verify_proof (97 ∷ []) twos steps_a (root (build objects)) ≡ true
unfolding verify_proof climb root last_first build build_levels next_level sorted_leaves sort_by
    cmp_bytes node_digest
verifies = bytes_eq_refl (node_digest (leaf_digest (97 ∷ []) twos) (leaf_digest (98 ∷ []) ones))

lookup-verify_proof_example :
    (lookup (97 ∷ []) objects ≡ some twos)
    ⊎ RootClash (along (start (97 ∷ []) twos) steps_a) (tree_of objects)
lookup-verify_proof_example =
    lookup-verify_proof objects (97 ∷ []) twos steps_a (omega arith) (omega arith)
      (leaf_digest-Fits (98 ∷ []) ones, tt) verifies

proof-absent_example : proof (build objects) (99 ∷ []) ≡ none
proof-absent_example = proof-absent objects (99 ∷ []) lookup_c

same_map : (id : List ℕ) → lookup id objects ≡ lookup id objects'
unfolding lookup
same_map id = ground (arith, eq_of_cmp (98 ∷ []) id, eq_of_cmp (97 ∷ []) id)

build-SameMap_example : build objects ≡ build objects'
build-SameMap_example = build-SameMap objects objects' same_map
