-- ===== src/Merkle/Leaves.antt =====
-- src/merkle.rs: the leaves of a built tree are the map of its entries, in order.
use subnext.Prelude.{
  ℕ, ◌≡◌, refl, ap, ◌∙◌, inl, inr, Bool, true, false, Option, none, some, List, [], ◌∷◌, Ordering,
  All, if◌then◌else◌, Bool-cases, arith,
}
use subnext.Prelude.Bytes.{
  cmp_bytes, bytes_eq, sort_by, insert_by, cmp_bytes_refl, eq_of_cmp, cmp_bytes_flip,
  cmp_bytes_trans, bytes_eq_iff,
}
use subnext.Merkle.{Entry, by_id, dedup_from, dedup_by_id, sorted_leaves}

-- The content of the first entry with the id.
unfoldable pub lookup : List ℕ → List Entry → Option (List ℕ)
lookup id [] = none
lookup id (e ∷ es) = if bytes_eq e.0 id then some e.1 else lookup id es

-- `id` comes before every entry.
abbrev pub Below : List ℕ → List Entry → Type 0
Below id es = All (λ e. cmp_bytes id e.0 ≡ Ordering.lt) es

-- `a` does not come after `b`.
abbrev le_bytes : List ℕ → List ℕ → Bool
le_bytes a b = elim (cmp_bytes a b) [ Ordering.gt ↦ false | _ ↦ true ]

abbrev NotAfter : List ℕ → List Entry → Type 0
NotAfter id es = All (λ e. le_bytes id e.0 ≡ true) es

-- Strictly increasing ids.
abbrev pub IsSorted : List Entry → Type 0
IsSorted [] = Unit
IsSorted (e ∷ es) = Below e.0 es × IsSorted es

-- Weakly increasing ids.
abbrev IsOrdered : List Entry → Type 0
IsOrdered [] = Unit
IsOrdered (e ∷ es) = NotAfter e.0 es × IsOrdered es

le_bytes_trans : (a b c : List ℕ) → le_bytes a b ≡ true → le_bytes b c ≡ true → le_bytes a c ≡ true
le_bytes_trans a b c p q = ground (arith, eq_of_cmp a b, eq_of_cmp b c, cmp_bytes_trans a b c)

NotAfter-trans :
    (a b : List ℕ) (es : List Entry) → le_bytes a b ≡ true → NotAfter b es → NotAfter a es
NotAfter-trans a b [] h n = tt
NotAfter-trans a b (e ∷ es) h n = (le_bytes_trans a b e.0 h n.0, NotAfter-trans a b es h n.1)

Below-trans :
    (a b : List ℕ) (es : List Entry) → cmp_bytes a b ≡ Ordering.lt → Below b es → Below a es
Below-trans a b [] h n = tt
Below-trans a b (e ∷ es) h n = (cmp_bytes_trans a b e.0 h n.0, Below-trans a b es h n.1)

-- Sorting.
lookup-insert_by :
    (id : List ℕ) (e : Entry) (es : List Entry)
    → lookup id (insert_by by_id e es) ≡ (if bytes_eq e.0 id then some e.1 else lookup id es)
unfolding lookup insert_by
lookup-insert_by id e [] = refl
lookup-insert_by id e (x ∷ es) =
    ground (arith, lookup-insert_by id e es, eq_of_cmp e.0 id, eq_of_cmp x.0 id, cmp_bytes_refl id)

lookup-sort_by : (id : List ℕ) (es : List Entry) → lookup id (sort_by by_id es) ≡ lookup id es
unfolding lookup sort_by
lookup-sort_by id [] = refl
lookup-sort_by id (e ∷ es) =
    lookup-insert_by id e (sort_by by_id es)
    ∙ ap (λ t. if bytes_eq e.0 id then some e.1 else t) (lookup-sort_by id es)

insert_by_front :
    (e x : Entry) (es : List Entry)
    → le_bytes e.0 x.0 ≡ true
    → insert_by by_id e (x ∷ es) ≡ e ∷ x ∷ es
unfolding insert_by
insert_by_front e x es h = ground arith

insert_by_behind :
    (e x : Entry) (es : List Entry)
    → le_bytes e.0 x.0 ≡ false
    → insert_by by_id e (x ∷ es) ≡ x ∷ insert_by by_id e es
unfolding insert_by
insert_by_behind e x es h = ground arith

NotAfter-insert_by :
    (a : List ℕ) (e : Entry) (es : List Entry)
    → le_bytes a e.0 ≡ true
    → NotAfter a es
    → NotAfter a (insert_by by_id e es)
NotAfter-insert_by a e [] h n = unfold insert_by in (h, tt)
NotAfter-insert_by a e (x ∷ es) h n = elim (Bool-cases (le_bytes e.0 x.0)) [
  | inl front ↦ rw (insert_by_front e x es front) (h, n)
  | inr behind ↦ rw (insert_by_behind e x es behind) (n.0, NotAfter-insert_by a e es h n.1)
]

insert_by-IsOrdered :
    (e : Entry) (es : List Entry) → IsOrdered es → IsOrdered (insert_by by_id e es)
insert_by-IsOrdered e [] o = unfold insert_by in (tt, tt)
insert_by-IsOrdered e (x ∷ es) o = elim (Bool-cases (le_bytes e.0 x.0)) [
  | inl front ↦ rw (insert_by_front e x es front) ((front, NotAfter-trans e.0 x.0 es front o.0), o)
  | inr behind ↦ rw (insert_by_behind e x es behind) (
    NotAfter-insert_by x.0 e es (ground (arith, cmp_bytes_flip e.0 x.0)) o.0,
    insert_by-IsOrdered e es o.1,
  )
]

sort_by-IsOrdered : (es : List Entry) → IsOrdered (sort_by by_id es)
unfolding sort_by
sort_by-IsOrdered [] = tt
sort_by-IsOrdered (e ∷ es) = insert_by-IsOrdered e (sort_by by_id es) (sort_by-IsOrdered es)

-- Removing repeated ids.
dedup_from-same :
    (k e : Entry) (es : List Entry)
    → bytes_eq e.0 k.0 ≡ true
    → dedup_from k (e ∷ es) ≡ dedup_from k es
unfolding dedup_from
dedup_from-same k e es h = ground arith

dedup_from-other :
    (k e : Entry) (es : List Entry)
    → bytes_eq e.0 k.0 ≡ false
    → dedup_from k (e ∷ es) ≡ e ∷ dedup_from e es
unfolding dedup_from
dedup_from-other k e es h = ground arith

lookup-dedup_from :
    (id : List ℕ) (k : Entry) (es : List Entry)
    → bytes_eq k.0 id ≡ false
    → lookup id (dedup_from k es) ≡ lookup id es
unfolding lookup
lookup-dedup_from id k [] h = unfold dedup_from in refl
lookup-dedup_from id k (e ∷ es) h = elim (Bool-cases (bytes_eq e.0 k.0)) [
  | inl same ↦
      rw (dedup_from-same k e es same)
        (ground (arith, lookup-dedup_from id k es h, bytes_eq_iff e.0 k.0 same))
  | inr other ↦ rw (dedup_from-other k e es other) (ground (arith, lookup-dedup_from id e es))
]

dedup_from-IsSorted :
    (k : Entry) (es : List Entry)
    → NotAfter k.0 es
    → IsOrdered es
    → Below k.0 (dedup_from k es) × IsSorted (dedup_from k es)
dedup_from-IsSorted k [] n o = unfold dedup_from in (tt, tt)
dedup_from-IsSorted k (e ∷ es) n o = elim (Bool-cases (bytes_eq e.0 k.0)) [
  | inl same ↦ rw (dedup_from-same k e es same) (dedup_from-IsSorted k es n.1 o.1)
  | inr other ↦
      let (below, sorted) = dedup_from-IsSorted e es o.0 o.1 in
      let before : cmp_bytes k.0 e.0 ≡ Ordering.lt =
        ground (arith, n.0, eq_of_cmp k.0 e.0, cmp_bytes_refl k.0) in
      rw (dedup_from-other k e es other)
        ((before, Below-trans k.0 e.0 (dedup_from e es) before below), (below, sorted))
]

-- The leaves of a built tree hold strictly increasing ids.
pub sorted_leaves-IsSorted : (es : List Entry) → IsSorted (sorted_leaves es)
unfolding sorted_leaves
sorted_leaves-IsSorted es = go (sort_by by_id es) (sort_by-IsOrdered es)
  where
    go : (xs : List Entry) → IsOrdered xs → IsSorted (dedup_by_id xs)
    go [] o = tt
    go (x ∷ xs) o = dedup_from-IsSorted x xs o.0 o.1

-- The leaves of a built tree hold, for every id, the content of the first entry with that id, and
-- nothing for an id of no entry.
pub lookup-sorted_leaves :
    (id : List ℕ) (es : List Entry) → lookup id (sorted_leaves es) ≡ lookup id es
unfolding sorted_leaves lookup
lookup-sorted_leaves id es = go (sort_by by_id es) ∙ lookup-sort_by id es
  where
    go : (xs : List Entry) → lookup id (dedup_by_id xs) ≡ lookup id xs
    go [] = refl
    go (x ∷ xs) = ground (arith, lookup-dedup_from id x xs)

-- What holds of every entry holds of every leaf.
All-insert_by :
    (P : Entry → Type 0) (e : Entry) (es : List Entry)
    → P e
    → All P es
    → All P (insert_by by_id e es)
All-insert_by P e [] p h = unfold insert_by in (p, tt)
All-insert_by P e (x ∷ es) p h = elim (Bool-cases (le_bytes e.0 x.0)) [
  | inl front ↦ rw (insert_by_front e x es front) (p, h)
  | inr behind ↦ rw (insert_by_behind e x es behind) (h.0, All-insert_by P e es p h.1)
]

All-sort_by : (P : Entry → Type 0) (es : List Entry) → All P es → All P (sort_by by_id es)
unfolding sort_by
All-sort_by P [] h = tt
All-sort_by P (e ∷ es) h = All-insert_by P e (sort_by by_id es) h.0 (All-sort_by P es h.1)

All-dedup_from :
    (P : Entry → Type 0) (k : Entry) (es : List Entry) → All P es → All P (dedup_from k es)
All-dedup_from P k [] h = unfold dedup_from in tt
All-dedup_from P k (e ∷ es) h = elim (Bool-cases (bytes_eq e.0 k.0)) [
  | inl same ↦ rw (dedup_from-same k e es same) (All-dedup_from P k es h.1)
  | inr other ↦ rw (dedup_from-other k e es other) (h.0, All-dedup_from P e es h.1)
]

pub All-sorted_leaves : (P : Entry → Type 0) (es : List Entry) → All P es → All P (sorted_leaves es)
unfolding sorted_leaves
All-sorted_leaves P es h = go (sort_by by_id es) (All-sort_by P es h)
  where
    go : (xs : List Entry) → All P xs → All P (dedup_by_id xs)
    go [] h = tt
    go (x ∷ xs) h = (h.0, All-dedup_from P x xs h.1)
