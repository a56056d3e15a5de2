-- ===== src/Merkle/Levels.antt =====
-- src/merkle.rs: one level of the tree, and the loop of `build` over the levels.
use subnext.Prelude.{
  ℕ, zero, suc, ◌+◌, ◌*◌, ◌/◌, ◌≤◌, ◌<◌, ◌≡◌, refl, inl, inr, none, some, some_eq, List, [], ◌∷◌,
  length, get_elem?, ltb, Bool-cases, arith,
}
use subnext.Merkle.{node_digest, next_level, build_levels, last_first}

abbrev pub double : ℕ → ℕ
double zero = 0
double (suc j) = suc (suc (double j))

pub double_lem : (j : ℕ) → double j ≡ 2 * j
double_lem zero = refl
double_lem (suc j) = omega (arith, double_lem j)

pub length-next_level : (level : List (List ℕ)) → length (next_level level) ≡ (length level + 1) / 2
unfolding next_level
length-next_level [] = omega arith
length-next_level (a ∷ []) = omega arith
length-next_level (a ∷ b ∷ rest) = omega (arith, length-next_level rest)

-- A pair of neighbours goes up as one node.
pub next_level-pair :
    (level : List (List ℕ)) (j : ℕ) (a b : List ℕ)
    → get_elem? level (double j) ≡ some a
    → get_elem? level (suc (double j)) ≡ some b
    → get_elem? (next_level level) j ≡ some (node_digest a b)
unfolding next_level
next_level-pair [] j a b p q = cc
next_level-pair (x ∷ []) zero a b p q = cc
next_level-pair (x ∷ []) (suc j) a b p q = cc
next_level-pair (x ∷ y ∷ rest) zero a b p q = rw (some_eq p, some_eq q) refl
next_level-pair (x ∷ y ∷ rest) (suc j) a b p q = next_level-pair rest j a b p q

-- A last digest without a neighbour goes up as it is.
pub next_level-lone :
    (level : List (List ℕ)) (j : ℕ) (a : List ℕ)
    → get_elem? level (double j) ≡ some a
    → get_elem? level (suc (double j)) ≡ none
    → get_elem? (next_level level) j ≡ some a
unfolding next_level
next_level-lone [] j a p q = cc
next_level-lone (x ∷ []) zero a p q = p
next_level-lone (x ∷ []) (suc j) a p q = cc
next_level-lone (x ∷ y ∷ rest) zero a p q = cc
next_level-lone (x ∷ y ∷ rest) (suc j) a p q = next_level-lone rest j a p q

-- The loop of `build`: with as much fuel as there are digests it ends, at a level of one digest.
pub build_levels-more :
    (fuel : ℕ) (level : List (List ℕ))
    → 1 < length level
    → build_levels (suc fuel) level ≡ level ∷ build_levels fuel (next_level level)
unfolding build_levels
build_levels-more fuel level h = ground arith

pub build_levels-done :
    (fuel : ℕ) (level : List (List ℕ)) → length level ≤ 1 → build_levels fuel level ≡ level ∷ []
unfolding build_levels
build_levels-done zero level h = refl
build_levels-done (suc fuel) level h = ground arith

build_levels-cons :
    (fuel : ℕ) (level : List (List ℕ))
    → (rest : List (List (List ℕ))) × (build_levels fuel level ≡ level ∷ rest)
unfolding build_levels
build_levels-cons zero level = ([], refl)
build_levels-cons (suc fuel) level = elim (Bool-cases (ltb 1 (length level))) [
  | inl more ↦ (build_levels fuel (next_level level), rw (more, build_levels))
  | inr done ↦ ([], rw (done, build_levels))
]

-- Levels below the last do not matter to the root.
pub last_first-build_levels :
    (fuel : ℕ) (below level : List (List ℕ))
    → last_first (below ∷ build_levels fuel level) ≡ last_first (build_levels fuel level)
unfolding last_first
last_first-build_levels fuel below level = let (rest, e) = build_levels-cons fuel level in rw e refl
