-- ===== src/Merkle/Position.antt =====
-- src/merkle.rs: `position` finds exactly the ids that the tree holds.
use subnext.Prelude.{
  ℕ, zero, suc, ◌+◌, ◌-◌, ◌/◌, ◌≤◌, ◌<◌, ◌≡◌, sym, ap, ◌∙◌, ◌⊎◌, ⊎_elim, inl, inr, some, some_eq,
  List, [], ◌∷◌, Ordering, length, get_elem?, get_elem?-lt, lt_of_get_elem?, ltb, ltb→lt,
  Bool-cases, Option-cases, arith,
}
use subnext.Prelude.Bytes.{cmp_bytes, bytes_eq, cmp_bytes_refl, cmp_bytes_flip_lt, bytes_eq_iff}
use subnext.Merkle.{Entry, MerkleTree, next_base, search_loop, position}
use subnext.Merkle.Leaves.{lookup, Below, IsSorted}

Below-get :
    (id : List ℕ) (es : List Entry) (i : ℕ) (e : Entry)
    → Below id es
    → get_elem? es i ≡ some e
    → cmp_bytes id e.0 ≡ Ordering.lt
Below-get id [] i e b g = cc
Below-get id (x ∷ es) zero e b g = rw (← some_eq g) b.0
Below-get id (x ∷ es) (suc i) e b g = Below-get id es i e b.1 g

-- An earlier leaf has a smaller id.
sorted-get :
    (es : List Entry) (i j : ℕ) (a b : Entry)
    → IsSorted es
    → i < j
    → get_elem? es i ≡ some a
    → get_elem? es j ≡ some b
    → cmp_bytes a.0 b.0 ≡ Ordering.lt
sorted-get [] i j a b s h p q = cc
sorted-get (e ∷ es) i zero a b s h p q = absurd (omega arith)
sorted-get (e ∷ es) zero (suc j) a b s h p q = rw (← some_eq p) (Below-get e.0 es j b s.0 q)
sorted-get (e ∷ es) (suc i) (suc j) a b s h p q = sorted-get es i j a b s.1 (omega arith) p q

-- The loop keeps the position that it looks for among its candidates.
module _ (es : List Entry) (id c : List ℕ) (i : ℕ) (s : IsSorted es)
    (here : get_elem? es i ≡ some (id, c)) where
  next_base_lem :
      (base mid : ℕ) (e : Entry)
      → get_elem? es mid ≡ some e
      → ((next_base es id base mid ≡ base) × (i < mid))
        ⊎ ((next_base es id base mid ≡ mid) × (mid ≤ i))
  unfolding next_base
  next_base_lem base mid e g = elim (Bool-cases (ltb i mid)) [
    | inl after ↦
        let before : cmp_bytes id e.0 ≡ Ordering.lt =
          sorted-get es i mid (id, c) e s (ground arith) here g in
        inl (rw (g, next_base, cmp_bytes_flip_lt id e.0 before), ground arith)
    | inr not_after ↦ elim (Bool-cases (ltb mid i)) [
      | inl before ↦
          let less : cmp_bytes e.0 id ≡ Ordering.lt =
            sorted-get es mid i e (id, c) s (ground arith) g here in
          inr (rw (g, next_base) (rw less), omega (arith, ltb→lt mid i before))
      | inr same ↦
          let here' : mid ≡ i = ground arith in
          let is_e : (id, c) ≡ e = some_eq (sym here ∙ (rw (← here') g)) in
          inr (
            rw (g, next_base) (rw (← ap (λ (p : Entry). p.0) is_e, cmp_bytes_refl id)),
            omega (arith, here'),
          )
    ]
  ]

  search_loop_lem :
      (fuel base size : ℕ)
      → size ≤ fuel
      → base ≤ i
      → i < base + size
      → base + size ≤ length es
      → search_loop fuel es id base size ≡ i
  unfolding search_loop
  search_loop_lem zero base size f lo hi r = absurd (omega arith)
  search_loop_lem (suc fuel) base size f lo hi r = elim (Bool-cases (ltb 1 size)) [
    | inl many ↦
        let half = size / 2 in
        let two : 1 < size = ground arith in
        let (e, g) = get_elem?-lt es (base + half) (omega arith) in
        rw (many, search_loop)
          (⊎_elim
            (λ (stay, lt). rw stay (
              search_loop_lem fuel base (size - half) (omega arith) lo (omega arith) (omega arith)))
            (λ (move, le). rw move (
              search_loop_lem fuel (base + half) (size - half) (omega arith) le (omega arith)
                (omega arith)))
            (next_base_lem base (base + half) e g))
    | inr one ↦ rw (one, search_loop) (ground arith)
  ]

get-lookup :
    (es : List Entry) (id c : List ℕ)
    → lookup id es ≡ some c
    → (i : ℕ) × (get_elem? es i ≡ some (id, c))
unfolding lookup
get-lookup [] id c h = cc
get-lookup (e ∷ es) id c h = elim (Bool-cases (bytes_eq e.0 id)) [
  | inl same ↦ (0, ground (arith, bytes_eq_iff e.0 id same))
  | inr other ↦ let (i, g) = get-lookup es id c (ground arith) in (suc i, g)
]

-- An id that the leaves hold is found, at its place.
pub position-eq_some :
    (t : MerkleTree) (id c : List ℕ)
    → IsSorted t.leaves
    → lookup id t.leaves ≡ some c
    → (i : ℕ) × (position t id ≡ some i) × (get_elem? t.leaves i ≡ some (id, c))
unfolding position
position-eq_some t id c s h =
    let (i, g) = get-lookup t.leaves id c h in
    let n = length t.leaves in
    let found : search_loop n t.leaves id 0 n ≡ i =
      search_loop_lem t.leaves id c i s g n 0 n (omega arith) (omega arith)
        (omega (arith, lt_of_get_elem? t.leaves i g)) (omega arith) in
    (i, rw (found, g) (ground (arith, cmp_bytes_refl id)), g)

-- What is found is a leaf with the id.
pub get-position :
    (t : MerkleTree) (id : List ℕ) (i : ℕ)
    → position t id ≡ some i
    → (c : List ℕ) × (get_elem? t.leaves i ≡ some (id, c))
unfolding position
get-position t id i h =
    let base = search_loop (length t.leaves) t.leaves id 0 (length t.leaves) in
    elim (Option-cases (get_elem? t.leaves base)) [
      | inl out ↦ cc (rw (out, position) at h)
      | inr (e, g) ↦ elim (Bool-cases (bytes_eq e.0 id)) [
        | inr other ↦ cc (rw (g, position, other) at h)
        | inl same ↦
            let place : base ≡ i = some_eq (rw (g, position, same) at h) in
            (e.1, rw (← place, g) (ap (λ t. some (t, e.1)) (bytes_eq_iff e.0 id same)))
      ]
    ]
