-- ===== src/Budget/Maps.antt =====
-- src/budget.rs: a `HashMap` by node.
use subnext.Prelude.{ℕ, Bool, true, false, Option, none, some, List, [], ◌∷◌, ◌==◌, if◌then◌else◌}
use subnext.Prelude.{◌≡◌, refl, arith}

abbrev pub NodeMap {ℓ} : Type ℓ → Type ℓ
NodeMap V = List (ℕ × V)

-- `is_some`
abbrev pub has_value {ℓ} : {A : Type ℓ} → Option A → Bool
has_value none = false
has_value (some a) = true

module _ {ℓ} {V : Type ℓ} where
  unfoldable pub find : NodeMap V → ℕ → Option V
  find [] k = none
  find ((j, v) ∷ m) k = if j == k then some v else find m k

  unfoldable pub put : NodeMap V → ℕ → V → NodeMap V
  put [] k v = (k, v) ∷ []
  put ((j, w) ∷ m) k v = if j == k then (k, v) ∷ m else (j, w) ∷ put m k v

  unfoldable pub has : NodeMap V → ℕ → Bool
  unfolding find
  has m k = has_value (find m k)

  pub find-put :
      (m : NodeMap V) (k j : ℕ) (v : V) → find (put m k v) j ≡ (if k == j then some v else find m j)
  unfolding find put
  find-put [] k j v = refl
  find-put ((i, w) ∷ m) k j v = ground (arith, find-put m k j v)
