-- ===== src/Merkle/Canonical.antt =====
-- src/merkle.rs: the tree is a function of the map that its entries stand for.
use subnext.Prelude.{
  ℕ, ◌≡◌, refl, sym, ap, ◌∙◌, none, some, some_eq, List, [], ◌∷◌, Ordering, if◌then◌else◌, arith,
}
use subnext.Prelude.Bytes.{
  cmp_bytes, bytes_eq, cmp_bytes_refl, eq_of_cmp, cmp_bytes_flip, cmp_bytes_trans, bytes_eq_iff,
}
use subnext.Merkle.{Entry, sorted_leaves, build}
use subnext.Merkle.Leaves.{lookup, Below, IsSorted, sorted_leaves-IsSorted, lookup-sorted_leaves}

pub lookup-Below : (id : List ℕ) (es : List Entry) → Below id es → lookup id es ≡ none
unfolding lookup
lookup-Below id [] b = refl
lookup-Below id (e ∷ es) b =
    ground (arith, b.0, lookup-Below id es b.1, eq_of_cmp e.0 id, cmp_bytes_refl id)

lookup-head : (e : Entry) (es : List Entry) → lookup e.0 (e ∷ es) ≡ some e.1
unfolding lookup
lookup-head e es = ground (arith, cmp_bytes_refl e.0)

-- No entry of a sorted list has an id below the first.
lookup-before :
    (id : List ℕ) (e : Entry) (es : List Entry)
    → cmp_bytes id e.0 ≡ Ordering.lt
    → IsSorted (e ∷ es)
    → lookup id (e ∷ es) ≡ none
lookup-before id e es h s = lookup-Below id (e ∷ es) (h, go es s.0)
  where
    go : (xs : List Entry) → Below e.0 xs → Below id xs
    go [] b = tt
    go (x ∷ xs) b = (cmp_bytes_trans id e.0 x.0 h b.0, go xs b.1)

lookup-tail :
    (id : List ℕ) (e : Entry) (es : List Entry)
    → IsSorted (e ∷ es)
    → lookup id es ≡ (if bytes_eq e.0 id then none else lookup id (e ∷ es))
unfolding lookup
lookup-tail id e es s = ground (arith, bytes_eq_iff e.0 id, lookup-Below e.0 es s.0)

abbrev SameMap : List Entry → List Entry → Type 0
SameMap es es' = (id : List ℕ) → lookup id es ≡ lookup id es'

lookup-nil : (id : List ℕ) → lookup id [] ≡ none
unfolding lookup
lookup-nil id = refl

module _ (e e' : Entry) (es es' : List Entry) (s : IsSorted (e ∷ es)) (s' : IsSorted (e' ∷ es'))
    (h : SameMap (e ∷ es) (e' ∷ es')) where
  same_id : (o : Ordering) → cmp_bytes e.0 e'.0 ≡ o → e.0 ≡ e'.0
  same_id Ordering.lt p = cc (h e.0, lookup-head e es, lookup-before e.0 e' es' p s')
  same_id Ordering.eq p = eq_of_cmp e.0 e'.0 p
  same_id Ordering.gt p =
      cc (h e'.0, lookup-head e' es', lookup-before e'.0 e es (cmp_bytes_flip e.0 e'.0 p) s)

  same_content : e.1 ≡ e'.1
  same_content = some_eq (
      sym (lookup-head e es)
      ∙ (h e.0
          ∙ (ap (λ t. lookup t (e' ∷ es')) (same_id (cmp_bytes e.0 e'.0) refl)
              ∙ lookup-head e' es')))

  same_tail : SameMap es es'
  same_tail id =
      lookup-tail id e es s
      ∙ (ap (λ t. if bytes_eq t id then none else lookup id (e ∷ es))
            (same_id (cmp_bytes e.0 e'.0) refl)
          ∙ (ap (λ t. if bytes_eq e'.0 id then none else t) (h id)
              ∙ sym (lookup-tail id e' es' s')))

-- Sorted lists that hold the same map are equal.
sorted_ext : (es es' : List Entry) → IsSorted es → IsSorted es' → SameMap es es' → es ≡ es'
sorted_ext [] [] s s' h = refl
sorted_ext [] (e' ∷ es') s s' h = cc (h e'.0, lookup-head e' es', lookup-nil e'.0)
sorted_ext (e ∷ es) [] s s' h = cc (h e.0, lookup-head e es, lookup-nil e.0)
sorted_ext (e ∷ es) (e' ∷ es') s s' h =
    let tails : es ≡ es' = sorted_ext es es' s.1 s'.1 (same_tail e e' es es' s s' h) in
    let ids = same_id e e' es es' s s' h (cmp_bytes e.0 e'.0) refl in
    let contents = same_content e e' es es' s s' h in λ i. (ids i, contents i) ∷ tails i

-- What is sorted depends only on the map.
pub sorted_leaves-SameMap :
    (es es' : List Entry)
    → ((id : List ℕ) → lookup id es ≡ lookup id es')
    → sorted_leaves es ≡ sorted_leaves es'
sorted_leaves-SameMap es es' h =
    sorted_ext (sorted_leaves es) (sorted_leaves es') (sorted_leaves-IsSorted es)
      (sorted_leaves-IsSorted es')
      (λ id. lookup-sorted_leaves id es ∙ (h id ∙ sym (lookup-sorted_leaves id es')))

-- The tree, and so its root, depends only on the content of the first entry of each id: neither on the
-- order of the ids nor on later entries of an id that is already there.
pub build-SameMap :
    (es es' : List Entry) → ((id : List ℕ) → lookup id es ≡ lookup id es') → build es ≡ build es'
unfolding build
build-SameMap es es' h = rw (sorted_leaves-SameMap es es' h) refl
