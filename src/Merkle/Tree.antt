-- ===== src/Merkle/Tree.antt =====
-- src/merkle.rs: the built levels as a binary tree over the leaves.
use subnext.Prelude.{
  ℕ, zero, suc, ◌≤◌, ◌<◌, ◌≡◌, refl, sym, subst, ap, ◌∙◌, ◌⊎◌, inl, inr, true, false, Option, none,
  some, some_eq, List, [], ◌∷◌, map, length, length-map, get_elem?, All, ltb, Bool-cases, arith,
}
use mathlib.Core.Option
use subnext.Merkle.{
  Entry, MerkleTree, leaf_digest, node_digest, next_level, build_levels, base_level, build,
  sorted_leaves, root, last_first, empty_root,
}
use subnext.Merkle.Levels.{
  build_levels-more, build_levels-done, last_first-build_levels, length-next_level,
}

pub data Tree : Type 0 where
  leaf : List ℕ → List ℕ → Tree
  node : Tree → Tree → Tree

unfoldable pub digest_of : Tree → List ℕ
digest_of (leaf id content) = leaf_digest id content
digest_of (node l r) = node_digest (digest_of l) (digest_of r)

-- The tree has the entry for a leaf.
abbrev pub Holds : Entry → Tree → Type 0
Holds e (leaf id content) = e ≡ (id, content)
Holds e (node l r) = Holds e l ⊎ Holds e r

abbrev AnyHolds : Entry → List Tree → Type 0
AnyHolds e [] = ⊥
AnyHolds e (t ∷ ts) = Holds e t ⊎ AnyHolds e ts

-- Every leaf of the tree satisfies `P`.
abbrev pub EachLeaf : (Entry → Type 0) → Tree → Type 0
EachLeaf P (leaf id content) = P (id, content)
EachLeaf P (node l r) = EachLeaf P l × EachLeaf P r

next_trees : List Tree → List Tree
next_trees (a ∷ b ∷ rest) = node a b ∷ next_trees rest
next_trees (a ∷ []) = a ∷ []
next_trees [] = []

next_trees-digests :
    (ts : List Tree) → map digest_of (next_trees ts) ≡ next_level (map digest_of ts)
unfolding next_trees next_level digest_of
next_trees-digests [] = refl
next_trees-digests (a ∷ []) = refl
next_trees-digests (a ∷ b ∷ rest) = ap (λ t. digest_of (node a b) ∷ t) (next_trees-digests rest)

AnyHolds-next_trees : (e : Entry) (ts : List Tree) → AnyHolds e (next_trees ts) → AnyHolds e ts
unfolding next_trees
AnyHolds-next_trees e [] h = h
AnyHolds-next_trees e (a ∷ []) h = h
AnyHolds-next_trees e (a ∷ b ∷ rest) (inl (inl h)) = inl h
AnyHolds-next_trees e (a ∷ b ∷ rest) (inl (inr h)) = inr (inl h)
AnyHolds-next_trees e (a ∷ b ∷ rest) (inr h) = inr (inr (AnyHolds-next_trees e rest h))

EachLeaf-next_trees :
    (P : Entry → Type 0) (ts : List Tree) → All (EachLeaf P) ts → All (EachLeaf P) (next_trees ts)
unfolding next_trees
EachLeaf-next_trees P [] h = h
EachLeaf-next_trees P (a ∷ []) h = h
EachLeaf-next_trees P (a ∷ b ∷ rest) h = ((h.0, h.1.0), EachLeaf-next_trees P rest h.1.1)

-- The tree of the last level.
top : ℕ → List Tree → Option Tree
top zero ts = get_elem? ts 0
top (suc fuel) ts = elim (ltb 1 (length ts)) [
  | true ↦ top fuel (next_trees ts)
  | false ↦ get_elem? ts 0
]

-- The parts of a built tree that the proofs about it use.
record IsTop (ts : List Tree) (o : Option Tree) (r : Option (List ℕ)) : Type 1 where
  digest : r ≡ Option.map digest_of o
  holds : (e : Entry) (t : Tree) → o ≡ some t → Holds e t → AnyHolds e ts
  each : (P : Entry → Type 0) (t : Tree) → o ≡ some t → All (EachLeaf P) ts → EachLeaf P t

IsTop-first : (ts : List Tree) → IsTop ts (get_elem? ts 0) (get_elem? (map digest_of ts) 0)
IsTop-first [] = record { digest = refl; holds = λ e t p h. cc p; each = λ P t p h. cc p }
IsTop-first (x ∷ ts) = record {
  digest = refl;
  holds = λ e t p h. inl (subst (Holds e) (sym (some_eq p)) h);
  each = λ P t p h. subst (EachLeaf P) (some_eq p) h.0;
}

first-build_levels : (level : List (List ℕ)) → last_first (level ∷ []) ≡ get_elem? level 0
unfolding last_first
first-build_levels level = refl

IsTop-top :
    (fuel : ℕ) (ts : List Tree)
    → length ts ≤ suc fuel
    → IsTop ts (top fuel ts) (last_first (build_levels fuel (map digest_of ts)))
unfolding top
IsTop-top zero ts f =
    let few = build_levels-done zero (map digest_of ts) (omega (arith, length-map digest_of ts)) in
    rw (few, first-build_levels) (IsTop-first ts)
IsTop-top (suc fuel) ts f = elim (Bool-cases (ltb 1 (length ts))) [
  | inr done ↦
      let few =
        build_levels-done (suc fuel) (map digest_of ts) (ground (arith, length-map digest_of ts)) in
      rw (done, top, few, first-build_levels) (IsTop-first ts)
  | inl more ↦
      let level = map digest_of ts in
      let many : 1 < length level = ground (arith, length-map digest_of ts) in
      let up : map digest_of (next_trees ts) ≡ next_level level = next_trees-digests ts in
      let size : length (next_trees ts) ≤ suc fuel = omega (
        arith,
        length-next_level level,
        length-map digest_of ts,
        ap length up,
        length-map digest_of (next_trees ts),
      ) in
      let ih = IsTop-top fuel (next_trees ts) size in
      let same : last_first (build_levels (suc fuel) level)
          ≡ last_first (build_levels fuel (map digest_of (next_trees ts))) =
        ap last_first (build_levels-more fuel level many)
        ∙ (last_first-build_levels fuel level (next_level level)
            ∙ ap (λ l. last_first (build_levels fuel l)) (sym up)) in
      rw (more, top, same)
        (record {
          digest = ih.digest;
          holds = λ e t p h. AnyHolds-next_trees e ts (ih.holds e t p h);
          each = λ P t p h. ih.each P t p (EachLeaf-next_trees P ts h);
        })
]

-- The tree of `build`, over the leaves in order.
leaf_trees : List Entry → List Tree
leaf_trees [] = []
leaf_trees (e ∷ es) = leaf e.0 e.1 ∷ leaf_trees es

pub tree_of : List Entry → Option Tree
unfolding top leaf_trees
tree_of entries = top (length (sorted_leaves entries)) (leaf_trees (sorted_leaves entries))

leaf_trees-digests : (es : List Entry) → map digest_of (leaf_trees es) ≡ base_level es
unfolding leaf_trees digest_of
leaf_trees-digests [] = refl
leaf_trees-digests (e ∷ es) = ap (λ t. leaf_digest e.0 e.1 ∷ t) (leaf_trees-digests es)

length-leaf_trees : (es : List Entry) → length (leaf_trees es) ≡ length es
unfolding leaf_trees
length-leaf_trees [] = refl
length-leaf_trees (e ∷ es) = ap suc (length-leaf_trees es)

-- The root of a built tree: the digest of its tree, and of no entries the empty root.
unfoldable pub root_digest : Option Tree → List ℕ
root_digest none = empty_root
root_digest (some t) = digest_of t

tree_of-IsTop :
    (entries : List Entry)
    → IsTop
        (leaf_trees (sorted_leaves entries))
        (tree_of entries)
        (last_first (build entries).levels)
unfolding tree_of build
tree_of-IsTop entries =
    let leaves = sorted_leaves entries in
    let n = length leaves in
    let size : n ≡ length (base_level leaves) =
      sym (length-map (λ (e : Entry). leaf_digest e.0 e.1) leaves) in
    subst (IsTop (leaf_trees leaves) (tree_of entries))
      (ap (λ l. last_first (build_levels n l)) (leaf_trees-digests leaves)
        ∙ ap (λ m. last_first (build_levels m (base_level leaves))) size)
      (IsTop-top n (leaf_trees leaves) (omega (arith, length-leaf_trees leaves)))

root-digest :
    (t : MerkleTree) (o : Option Tree)
    → last_first t.levels ≡ Option.map digest_of o
    → root t ≡ root_digest o
unfolding root root_digest
root-digest t none h = rw (h, root)
root-digest t (some x) h = rw (h, root)

-- The root of a built tree is the digest of its tree.
pub root-build : (entries : List Entry) → root (build entries) ≡ root_digest (tree_of entries)
root-build entries = root-digest (build entries) (tree_of entries) (tree_of-IsTop entries).digest

-- Is the entry in the list?
abbrev pub In : Entry → List Entry → Type 0
In e [] = ⊥
In e (x ∷ es) = (e ≡ x) ⊎ In e es

In-leaf_trees : (e : Entry) (es : List Entry) → AnyHolds e (leaf_trees es) → In e es
unfolding leaf_trees
In-leaf_trees e [] h = h
In-leaf_trees e (x ∷ es) (inl h) = inl h
In-leaf_trees e (x ∷ es) (inr h) = inr (In-leaf_trees e es h)

-- A leaf of the tree is a leaf of the sorted list.
pub Holds-In :
    (entries : List Entry) (t : Tree) (e : Entry)
    → tree_of entries ≡ some t
    → Holds e t
    → In e (sorted_leaves entries)
Holds-In entries t e p h =
    In-leaf_trees e (sorted_leaves entries) ((tree_of-IsTop entries).holds e t p h)

EachLeaf-leaf_trees :
    (P : Entry → Type 0) (es : List Entry) → All P es → All (EachLeaf P) (leaf_trees es)
unfolding leaf_trees
EachLeaf-leaf_trees P [] h = tt
EachLeaf-leaf_trees P (e ∷ es) h = (h.0, EachLeaf-leaf_trees P es h.1)

pub EachLeaf-tree_of :
    (P : Entry → Type 0) (entries : List Entry) (t : Tree)
    → tree_of entries ≡ some t
    → All P (sorted_leaves entries)
    → EachLeaf P t
EachLeaf-tree_of P entries t p h =
    (tree_of-IsTop entries).each P t p (EachLeaf-leaf_trees P (sorted_leaves entries) h)
