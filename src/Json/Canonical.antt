-- ===== src/Json/Canonical.antt =====
-- src/json.rs: `to_canonical_string`. The texts of the values of an object are made before its keys
-- are sorted, since they do not depend on the order. `sorted_leaves` is the sort by name that keeps the
-- first of equal names, in src/json.rs as in src/merkle.rs.
use subnext.Prelude.{
  ◌≡◌, refl, ap, sym, ◌∙◌, ℕ, Bool, true, false, Option, none, some, List, [], ◌∷◌, ◌++◌,
  if◌then◌else◌,
}
use subnext.Prelude.Bytes.{codes, bytes_eq}
use subnext.Merkle.{Entry, sorted_leaves}
use subnext.Merkle.Leaves.{lookup}
use subnext.Merkle.Canonical.{sorted_leaves-SameMap}
use subnext.Json.{
  Floats, Json, null, boolean, num, str, arr, obj, Items, nil, cons, Pairs, end, pair, find, get,
}
use subnext.Json.Write.{write_string, write}

-- The texts of an object, joined by commas.
unfoldable join_rest : List Entry → List ℕ
join_rest [] = b'}' ∷ []
join_rest ((k, text) ∷ es) = b',' ∷ (write_string k ++ (b':' ∷ (text ++ join_rest es)))

unfoldable join_object : List Entry → List ℕ
unfolding join_rest
join_object [] = b'{' ∷ b'}' ∷ []
join_object ((k, text) ∷ es) = b'{' ∷ (write_string k ++ (b':' ∷ (text ++ join_rest es)))

module _ (floats : Floats) where
  unfoldable mutual
    unfolding join_object

    pub write_canonical : Json → List ℕ
    write_canonical (num n) = if floats.is_finite n then write floats (num n) else codes "null"
    write_canonical (arr nil) = b'[' ∷ b']' ∷ []
    write_canonical (arr (cons v vs)) = b'[' ∷ (write_canonical v ++ canonical_items vs)
    write_canonical (obj ps) = join_object (sorted_leaves (canonical_pairs ps))
    write_canonical null = write floats null
    write_canonical (boolean b) = write floats (boolean b)
    write_canonical (str s) = write floats (str s)

    canonical_items : Items → List ℕ
    canonical_items nil = b']' ∷ []
    canonical_items (cons v vs) = b',' ∷ (write_canonical v ++ canonical_items vs)

    -- The keys, each with the text of its value.
    canonical_pairs : Pairs → List Entry
    canonical_pairs end = []
    canonical_pairs (pair k v ps) = (k, write_canonical v) ∷ canonical_pairs ps

  abbrev text_of : Option Json → Option (List ℕ)
  text_of none = none
  text_of (some v) = some (write_canonical v)

  canonical_pairs-pair :
      (k : List ℕ) (v : Json) (ps : Pairs)
      → canonical_pairs (pair k v ps) ≡ (k, write_canonical v) ∷ canonical_pairs ps
  unfolding canonical_pairs
  canonical_pairs-pair k v ps = refl

  write_canonical-obj :
      (ps : Pairs) → write_canonical (obj ps) ≡ join_object (sorted_leaves (canonical_pairs ps))
  unfolding write_canonical
  write_canonical-obj ps = refl

  lookup-cons :
      (k text key : List ℕ) (es : List Entry)
      → lookup key ((k, text) ∷ es) ≡ (if bytes_eq k key then some text else lookup key es)
  unfolding lookup
  lookup-cons k text key es = refl

  lookup-end : (key : List ℕ) → lookup key (canonical_pairs end) ≡ none
  unfolding canonical_pairs lookup
  lookup-end key = refl

  lookup-canonical_pairs :
      (ps : Pairs) (key : List ℕ) → lookup key (canonical_pairs ps) ≡ text_of (find ps key)
  unfolding find
  lookup-canonical_pairs end key = lookup-end key
  lookup-canonical_pairs (pair k v ps) key = rw (canonical_pairs-pair k v ps) (
      lookup-cons k (write_canonical v) key (canonical_pairs ps)
      ∙ tests (bytes_eq k key) (lookup-canonical_pairs ps key))
    where
      tests :
          (b : Bool)
          → lookup key (canonical_pairs ps) ≡ text_of (find ps key)
          → (if b then some (write_canonical v) else lookup key (canonical_pairs ps))
            ≡ text_of (if b then some v else find ps key)
      tests true e = refl
      tests false e = e

  -- The canonical text of an object depends only on what `Json::get` returns for each key: neither on
  -- the order of the pairs nor on the later pairs of a key that is there already.
  pub write_canonical-get :
      (ps qs : Pairs)
      → ((key : List ℕ) → get (obj ps) key ≡ get (obj qs) key)
      → write_canonical (obj ps) ≡ write_canonical (obj qs)
  unfolding get
  write_canonical-get ps qs h =
      write_canonical-obj ps
      ∙ (ap join_object (
            sorted_leaves-SameMap (canonical_pairs ps) (canonical_pairs qs) (λ key.
              lookup-canonical_pairs ps key
              ∙ (ap text_of (h key) ∙ sym (lookup-canonical_pairs qs key))))
          ∙ sym (write_canonical-obj qs))
