-- ===== src/Prelude/BTree.antt =====
-- `BTreeMap<String, V>` as the list of its entries in the order of their keys; a `BTreeSet<String>` is a
-- map to the unit type. A directory is one too: its listings are sorted where they are used.
use mathlib.Core.Path.{◌≡◌, refl}
use mathlib.Core.List.{List, [], ◌∷◌, map}
use mathlib.Core.Option.{none, some}
use mathlib.Core.Bool.{Bool, true, false}
use Prim.Native.Nat.{ℕ, lt, eq, gt}
use native.Mathlib.Omega.{arith}
use subnext.Prelude.Tests.{if◌then◌else◌}
use subnext.Prelude.Bytes.{
  bytes_eq, cmp_bytes, bytes_eq_refl, bytes_eq_iff, cmp_bytes_refl, eq_of_cmp,
}
use subnext.Prelude.Dict.{Dict, get}

module _ {ℓ} {V : Type ℓ} where
  unfoldable pub put : Dict V → List ℕ → V → Dict V
  put [] k v = (k, v) ∷ []
  put ((j, w) ∷ d) k v = elim (cmp_bytes j k) [
    | lt ↦ (j, w) ∷ put d k v
    | eq ↦ (k, v) ∷ d
    | gt ↦ (k, v) ∷ (j, w) ∷ d
  ]

  unfoldable pub remove : Dict V → List ℕ → Dict V
  remove [] k = []
  remove ((j, w) ∷ d) k = let rest = remove d k in if bytes_eq j k then rest else (j, w) ∷ rest

  unfoldable pub keys : Dict V → List (List ℕ)
  keys d = map (λ (e : List ℕ × V). e.0) d

  unfoldable pub contains : Dict V → List ℕ → Bool
  unfolding get
  contains d k = elim (get d k) [ none ↦ false | some v ↦ true ]

  pub get-put :
      (d : Dict V) (k j : List ℕ) (v : V)
      → get (put d k v) j ≡ (if bytes_eq k j then some v else get d j)
  unfolding get put
  get-put [] k j v = refl
  get-put ((i, w) ∷ d) k j v = ground (
    arith,
    bytes_eq_iff k j,
    bytes_eq_iff i j,
    eq_of_cmp i k,
    get-put d k j v,
    bytes_eq_refl k,
    bytes_eq_refl i,
    cmp_bytes_refl k,
  )

  pub get-remove :
      (d : Dict V) (k j : List ℕ) → get (remove d k) j ≡ (if bytes_eq k j then none else get d j)
  unfolding get remove
  get-remove [] k j = ground arith
  get-remove ((i, w) ∷ d) k j = ground (
    arith,
    bytes_eq_iff k j,
    bytes_eq_iff i k,
    bytes_eq_iff i j,
    get-remove d k j,
    bytes_eq_refl k,
    bytes_eq_refl i,
  )

  -- An entry under the key is what was put in; the others are what they were.
  pub get-put-same :
      (d e : Dict V) (k j : List ℕ) (v : V) → e ≡ put d k v → bytes_eq k j ≡ true → get e j ≡ some v
  get-put-same d e k j v h same = ground (arith, get-put d k j v)

  pub get-put-other :
      (d e : Dict V) (k j : List ℕ) (v : V)
      → e ≡ put d k v
      → bytes_eq k j ≡ false
      → get e j ≡ get d j
  get-put-other d e k j v h other = ground (arith, get-put d k j v)

  pub get-remove-same :
      (d e : Dict V) (k j : List ℕ) → e ≡ remove d k → bytes_eq k j ≡ true → get e j ≡ none
  get-remove-same d e k j h same = ground (arith, get-remove d k j)

  pub get-remove-other :
      (d e : Dict V) (k j : List ℕ) → e ≡ remove d k → bytes_eq k j ≡ false → get e j ≡ get d j
  get-remove-other d e k j h other = ground (arith, get-remove d k j)
