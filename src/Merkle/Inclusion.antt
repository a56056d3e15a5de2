-- ===== src/Merkle/Inclusion.antt =====
-- src/merkle.rs: every entry of a built tree has a proof, and the proof verifies.
use subnext.Prelude.{
  ℕ, zero, suc, ◌+◌, ◌-◌, ◌*◌, ◌/◌, ◌%◌, ◌≤◌, ◌<◌, ◌≡◌, refl, ◌∙◌, inl, inr, true, false, ◌&&◌,
  Option, none, some, some_eq, List, [], ◌∷◌, length, get_elem?, get_elem?-lt, lt_of_get_elem?,
  length-le_of_none, ltb, leb, ◌==◌, ◌>>=◌, Bool-cases, Option-cases, arith,
}
use subnext.Prelude.Bytes.{cmp_bytes_refl, bytes_eq_refl}
use subnext.Merkle.{
  Entry, MerkleTree, Step, left, right, leaf_digest, node_digest, sorted_leaves, base_level, build,
  next_level, build_levels, last_first, root, sibling_step, proof_steps, proof, position, climb,
  verify_proof,
}
use subnext.Merkle.Leaves.{lookup, sorted_leaves-IsSorted, lookup-sorted_leaves}
use subnext.Merkle.Position.{position-eq_some, get-position}
use subnext.Merkle.Levels.{
  double, double_lem, length-next_level, next_level-pair, next_level-lone, build_levels-more,
  build_levels-done, last_first-build_levels,
}

-- What `proof` returns from the index of a digest leads from that digest to the root.
abbrev Leads : List (List (List ℕ)) → ℕ → List ℕ → Type 0
Leads levels i d =
    (steps : List Step) × (proof_steps levels i ≡ some steps)
    × (last_first levels ≡ some (climb d steps))

-- One round of the loop of `proof`, for each of the three ways in which a digest goes up.
module _ (level : List (List ℕ)) (levels : List (List (List ℕ))) (i j : ℕ) (d : List ℕ)
    (many : 1 < length level) (here : get_elem? level i ≡ some d) where
  proof_steps-lone :
      i ≡ 2 * j → length level ≡ suc i → proof_steps (level ∷ levels) i ≡ proof_steps levels j
  unfolding proof_steps
  proof_steps-lone e l = let up : i / 2 ≡ j = omega arith in rw (← up) (ground arith)

  proof_steps-right :
      (b : List ℕ) (rest : List Step)
      → i ≡ 2 * j
      → get_elem? level (suc i) ≡ some b
      → proof_steps levels j ≡ some rest
      → proof_steps (level ∷ levels) i ≡ some (record { sibling = b; side = right } ∷ rest)
  unfolding proof_steps sibling_step
  proof_steps-right b rest e g r =
      let up : i / 2 ≡ j = omega arith in
      let next : i + 1 ≡ suc i = omega arith in
      let inside = lt_of_get_elem? level (suc i) g in
      let single : leb (length level) 1 ≡ false = ground arith in
      let inner : (i == length level - 1 && length level % 2 == 1) ≡ false =
        ground (arith, inside) in
      let even : (i % 2 == 0) ≡ true = ground arith in
      rw (single, proof_steps) (rw (inner, proof_steps) (rw (even, next, g, up, r) refl))

  proof_steps-left :
      (a : List ℕ) (rest : List Step)
      → i ≡ suc (2 * j)
      → get_elem? level (2 * j) ≡ some a
      → proof_steps levels j ≡ some rest
      → proof_steps (level ∷ levels) i ≡ some (record { sibling = a; side = left } ∷ rest)
  unfolding proof_steps sibling_step
  proof_steps-left a rest e g r =
      let up : i / 2 ≡ j = omega arith in
      let previous : i - 1 ≡ 2 * j = omega arith in
      let inside = lt_of_get_elem? level i here in
      let single : leb (length level) 1 ≡ false = ground arith in
      let inner : (i == length level - 1 && length level % 2 == 1) ≡ false =
        ground (arith, inside) in
      let odd : (i % 2 == 0) ≡ false = ground arith in
      rw (single, proof_steps) (rw (inner, proof_steps) (rw (odd, previous, g, up, r) refl))

-- The digest of a single-digest level is the root.
proof_steps-single :
    (level : List (List ℕ)) (i : ℕ) → length level ≤ 1 → proof_steps (level ∷ []) i ≡ some []
unfolding proof_steps
proof_steps-single level i h = ground arith

Leads-single :
    (level : List (List ℕ)) (i : ℕ) (d : List ℕ)
    → length level ≤ 1
    → get_elem? level i ≡ some d
    → Leads (level ∷ []) i d
unfolding climb last_first
Leads-single level i d h g =
    let inside = lt_of_get_elem? level i g in
    let first : i ≡ 0 = omega (arith, inside) in ([], proof_steps-single level i h, rw (← first) g)

-- The digest above, its path, and the step to it give the path from below.
module _ (level : List (List ℕ)) (fuel i j : ℕ) (d : List ℕ) (many : 1 < length level)
    (here : get_elem? level i ≡ some d)
    (above : (d' : List ℕ)
      → get_elem? (next_level level) j ≡ some d'
      → Leads (build_levels fuel (next_level level)) j d') where
  abbrev levels : List (List (List ℕ))
  levels = build_levels fuel (next_level level)

  Leads-lone : i ≡ 2 * j → get_elem? level (suc i) ≡ none → Leads (level ∷ levels) i d
  Leads-lone e g =
      let at : double j ≡ i = omega (arith, double_lem j) in
      let (steps, found, leads) = above d (next_level-lone level j d (rw at here) (rw at g)) in
      let last : length level ≡ suc i =
        omega (arith, lt_of_get_elem? level i here, length-le_of_none level (suc i) g) in
      (
        steps,
        proof_steps-lone level levels i j d many here e last ∙ found,
        last_first-build_levels fuel level (next_level level) ∙ leads,
      )

  Leads-right :
      (b : List ℕ) → i ≡ 2 * j → get_elem? level (suc i) ≡ some b → Leads (level ∷ levels) i d
  unfolding climb
  Leads-right b e g =
      let at : double j ≡ i = omega (arith, double_lem j) in
      let (steps, found, leads) =
        above (node_digest d b) (next_level-pair level j d b (rw at here) (rw at g)) in
      (
        record { sibling = b; side = right } ∷ steps,
        proof_steps-right level levels i j d many here b steps e g found,
        last_first-build_levels fuel level (next_level level) ∙ leads,
      )

  Leads-left :
      (a : List ℕ) → i ≡ suc (2 * j) → get_elem? level (2 * j) ≡ some a → Leads (level ∷ levels) i d
  unfolding climb
  Leads-left a e g =
      let at : double j ≡ 2 * j = double_lem j in
      let here' : get_elem? level (suc (2 * j)) ≡ some d = rw (← e) here in
      let (steps, found, leads) =
        above (node_digest a d) (next_level-pair level j a d (rw at g) (rw at here')) in
      (
        record { sibling = a; side = left } ∷ steps,
        proof_steps-left level levels i j d many here a steps e g found,
        last_first-build_levels fuel level (next_level level) ∙ leads,
      )

Leads-build_levels :
    (fuel : ℕ) (level : List (List ℕ)) (i : ℕ) (d : List ℕ)
    → length level ≤ suc fuel
    → get_elem? level i ≡ some d
    → Leads (build_levels fuel level) i d
Leads-build_levels zero level i d f g =
    rw (build_levels-done zero level f) (Leads-single level i d f g)
Leads-build_levels (suc fuel) level i d f g = elim (Bool-cases (ltb 1 (length level))) [
  | inr done ↦
      let few : length level ≤ 1 = ground arith in
      rw (build_levels-done (suc fuel) level few) (Leads-single level i d few g)
  | inl more ↦
      let many : 1 < length level = ground arith in
      let next = next_level level in
      let j = i / 2 in
      let fits : length next ≤ suc fuel = omega (arith, length-next_level level) in
      let ih = λ (d' : List ℕ) (g' : get_elem? next j ≡ some d').
        Leads-build_levels fuel next j d' fits g' in
      rw (build_levels-more fuel level many) (elim (Bool-cases (i % 2 == 0)) [
        | inl even ↦ elim (Option-cases (get_elem? level (suc i))) [
          | inl lone ↦ Leads-lone level fuel i j d many g ih (ground arith) lone
          | inr (b, sib) ↦ Leads-right level fuel i j d many g ih b (ground arith) sib
        ]
        | inr odd ↦
            let (a, sib) = get_elem?-lt level (2 * j) (ground (arith, lt_of_get_elem? level i g)) in
            Leads-left level fuel i j d many g ih a (ground arith) sib
      ])
]

get_elem?-base_level :
    (es : List Entry) (i : ℕ) (e : Entry)
    → get_elem? es i ≡ some e
    → get_elem? (base_level es) i ≡ some (leaf_digest e.0 e.1)
get_elem?-base_level [] i e g = cc
get_elem?-base_level (x ∷ es) zero e g = rw (some_eq g) refl
get_elem?-base_level (x ∷ es) (suc i) e g = get_elem?-base_level es i e g

root-last_first : (t : MerkleTree) (d : List ℕ) → last_first t.levels ≡ some d → root t ≡ d
unfolding root
root-last_first t d h = rw (h, root)

verify_proof-climb :
    (id content : List ℕ) (steps : List Step) (r : List ℕ)
    → r ≡ climb (leaf_digest id content) steps
    → verify_proof id content steps r ≡ true
unfolding verify_proof
verify_proof-climb id content steps r h =
    rw h (bytes_eq_refl (climb (leaf_digest id content) steps))

proof-position :
    (t : MerkleTree) (id : List ℕ) (o : Option ℕ)
    → position t id ≡ o
    → proof t id ≡ (o >>= λ i. proof_steps t.levels i)
unfolding proof
proof-position t id o h = rw h

-- Inclusion: an object whose content is that of the first entry with its id has a proof, the
-- indexing never panics on the way, and the proof verifies against the root. Of entries with one id, the
-- first is the one that the tree keeps.
pub verify_proof-proof :
    (entries : List Entry) (id content : List ℕ)
    → lookup id entries ≡ some content
    → (steps : List Step) × (proof (build entries) id ≡ some steps)
      × (verify_proof id content steps (root (build entries)) ≡ true)
unfolding build
verify_proof-proof entries id content h =
    let leaves = sorted_leaves entries in
    let base = base_level leaves in
    let (i, at, leaf) =
      position-eq_some (build entries) id content (sorted_leaves-IsSorted entries)
        (lookup-sorted_leaves id entries ∙ h) in
    let (steps, found, leads) =
      Leads-build_levels (length base) base i (leaf_digest id content) (omega arith)
        (get_elem?-base_level leaves i (id, content) leaf) in
    (
      steps,
      proof-position (build entries) id (some i) at ∙ found,
      verify_proof-climb id content steps (root (build entries))
          (root-last_first (build entries) (climb (leaf_digest id content) steps) leads),
    )

lookup_of_get :
    (es : List Entry) (i : ℕ) (id c : List ℕ)
    → get_elem? es i ≡ some (id, c)
    → lookup id es ≡ none
    → ⊥
unfolding lookup
lookup_of_get [] i id c g h = cc
lookup_of_get (e ∷ es) zero id c g h = ground (arith, cmp_bytes_refl id)
lookup_of_get (e ∷ es) (suc i) id c g h = lookup_of_get es i id c g (ground arith)

-- An id of no entry has no proof.
pub proof-absent :
    (entries : List Entry) (id : List ℕ)
    → lookup id entries ≡ none
    → proof (build entries) id ≡ none
unfolding build
proof-absent entries id h = elim (Option-cases (position (build entries) id)) [
  | inl none_found ↦ proof-position (build entries) id none none_found
  | inr (i, at) ↦
      let (c, g) = get-position (build entries) id i at in
      absurd (lookup_of_get (sorted_leaves entries) i id c g (lookup-sorted_leaves id entries ∙ h))
]
