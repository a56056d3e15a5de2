-- ===== src/Prelude/Dict.antt =====
-- A hash map with string keys, as an association list; a string is its bytes.
use mathlib.Core.Path.{◌≡◌, refl}
use mathlib.Core.List.{List, [], ◌∷◌}
use mathlib.Core.Option.{Option, none, some}
use Prim.Native.Nat.{ℕ}
use native.Mathlib.Omega.{arith}
use subnext.Prelude.Tests.{if◌then◌else◌}
use subnext.Prelude.Bytes.{bytes_eq, bytes_eq_refl, bytes_eq_iff}

abbrev pub Dict {ℓ} : Type ℓ → Type ℓ
Dict V = List (List ℕ × V)

module _ {ℓ} {V : Type ℓ} where
  unfoldable pub get : Dict V → List ℕ → Option V
  get [] k = none
  get ((j, v) ∷ d) k = if bytes_eq j k then some v else get d k

  unfoldable pub insert : Dict V → List ℕ → V → Dict V
  insert [] k v = (k, v) ∷ []
  insert ((j, w) ∷ d) k v = if bytes_eq j k then (k, v) ∷ d else (j, w) ∷ insert d k v

  pub get-insert :
      (d : Dict V) (k j : List ℕ) (v : V)
      → get (insert d k v) j ≡ (if bytes_eq k j then some v else get d j)
  unfolding get insert
  get-insert [] k j v = refl
  get-insert ((i, w) ∷ d) k j v = ground (
    arith,
    bytes_eq_iff k j,
    bytes_eq_iff i k,
    bytes_eq_iff i j,
    get-insert d k j v,
    bytes_eq_refl k,
    bytes_eq_refl i,
    bytes_eq_refl j,
  )
