-- ===== src/Budget/Sums.antt =====
-- src/budget.rs: sums of costs over nodes and over maps.
use subnext.Prelude.{
  ◌≡◌, refl, subst, ℕ, ◌+◌, ◌≤◌, false, Option, none, some, List, [], ◌∷◌, ◌==◌, if◌then◌else◌,
  arith, All, Bool-cases, inl, inr,
}
use subnext.Budget.Table.{Choice}
use subnext.Budget.Maps.{NodeMap, find, put}

unfoldable pub sum_at : (ℕ → ℕ) → List ℕ → ℕ
sum_at f [] = 0
sum_at f (n ∷ ns) = f n + sum_at f ns

unfoldable pub total : NodeMap ℕ → ℕ
total [] = 0
total ((k, v) ∷ m) = v + total m

unfoldable pub look : NodeMap ℕ → ℕ → ℕ
look [] n = 0
look ((k, v) ∷ m) n = if k == n then v else look m n

abbrev Absent : ℕ → List ℕ → Type 0
Absent k ns = All (λ (n : ℕ). (k == n) ≡ false) ns

-- No node twice.
unfoldable pub Distinct : List ℕ → Type 0
Distinct [] = Unit
Distinct (n ∷ ns) = Absent n ns × Distinct ns

sum_at-zero : (ns : List ℕ) → sum_at (look []) ns ≡ 0
unfolding sum_at look
sum_at-zero [] = refl
sum_at-zero (n ∷ ns) = omega (arith, sum_at-zero ns)

sum_at-Absent :
    (k v : ℕ) (m : NodeMap ℕ) (ns : List ℕ)
    → Absent k ns
    → sum_at (look ((k, v) ∷ m)) ns ≡ sum_at (look m) ns
unfolding sum_at look
sum_at-Absent k v m [] h = refl
sum_at-Absent k v m (n ∷ ns) h = rw (h.0, sum_at-Absent k v m ns h.1) refl

sum_at-cons :
    (k v : ℕ) (m : NodeMap ℕ) (ns : List ℕ)
    → Distinct ns
    → sum_at (look ((k, v) ∷ m)) ns ≤ v + sum_at (look m) ns
unfolding sum_at look Distinct
sum_at-cons k v m [] d = omega arith
sum_at-cons k v m (n ∷ ns) (absent, d) = elim (Bool-cases (k == n)) [
  | inl same ↦
      let same_node : n ≡ k = ground arith in
      let absent_k = subst (λ t. Absent t ns) same_node absent in
      rw same (omega (arith, sum_at-Absent k v m ns absent_k))
  | inr other ↦ rw other (omega (arith, sum_at-cons k v m ns d))
]

pub sum_at-look : (m : NodeMap ℕ) (ns : List ℕ) → Distinct ns → sum_at (look m) ns ≤ total m
unfolding total
sum_at-look [] ns d = omega (arith, sum_at-zero ns)
sum_at-look ((k, v) ∷ m) ns d = omega (arith, sum_at-cons k v m ns d, sum_at-look m ns d)

pub sum_at-le :
    (f g h : ℕ → ℕ) (ns : List ℕ)
    → ((n : ℕ) → f n ≤ g n + h n)
    → sum_at f ns ≤ sum_at g ns + sum_at h ns
unfolding sum_at
sum_at-le f g h [] e = omega arith
sum_at-le f g h (n ∷ ns) e = omega (arith, e n, sum_at-le f g h ns e)

abbrev pub cost_of : Option Choice → ℕ
cost_of none = 0
cost_of (some option) = option.cost

-- The costs of a map of options.
unfoldable pub costs : NodeMap Choice → NodeMap ℕ
costs [] = []
costs ((k, option) ∷ m) = (k, option.cost) ∷ costs m

pub look-costs : (m : NodeMap Choice) (n : ℕ) → look (costs m) n ≡ cost_of (find m n)
unfolding look costs find
look-costs [] n = refl
look-costs ((k, option) ∷ m) n = ground (arith, look-costs m n)

pub total-put :
    (m : NodeMap Choice) (k : ℕ) (option : Choice)
    → total (costs (put m k option)) ≤ total (costs m) + option.cost
unfolding total costs put
total-put [] k option = omega arith
total-put ((j, o) ∷ m) k option = ground (arith, total-put m k option)
