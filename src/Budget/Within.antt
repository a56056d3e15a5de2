-- ===== src/Budget/Within.antt =====
-- src/budget.rs: an allocation stays within its budget.
use subnext.Prelude.{
  ◌≡◌, refl, ◌⊎◌, ℕ, ◌+◌, ◌-◌, ◌*◌, ◌/◌, ◌≤◌, ◌<◌, false, Option, none, some, List, [], ◌∷◌, map,
  max, ltb, leb, if◌then◌else◌, arith, Bool-cases, Option-cases, inl, inr, leb→le,
}
use native.Mathlib.Nat.{mul-div-le}
use subnext.Prelude.Bytes.{sort_by}
use subnext.Ladder.{Level}
use subnext.Budget.Maps.{NodeMap, find, put}
use subnext.Budget.Table.{Utilities, Choice}
use subnext.Budget.Sums.{
  sum_at, total, look, Distinct, sum_at-look, sum_at-le, cost_of, costs, look-costs, total-put,
}
use subnext.Budget.Spending.{Meets, select-Meets}
use subnext.Budget.{
  by_utility, admit_one, allocate_one, Candidate, Allocation, no_allocation, cheapest, reserve,
  admit_fitting, overflowing, allocate, or_else, quantum_for, select, solve, is_zero_or_none,
}

abbrev pub nodes : List Candidate → List ℕ
nodes candidates = map (λ (c : Candidate). c.node) candidates

pub reserve-none :
    (c : Candidate) (candidates : List Candidate) (forced : NodeMap Choice) (reserved : ℕ)
    → (if c.pinned then cheapest c else none) ≡ none
    → reserve (c ∷ candidates) forced reserved ≡ reserve candidates forced reserved
unfolding reserve
reserve-none c candidates forced reserved e = ground arith

pub reserve-some :
    (c : Candidate) (candidates : List Candidate) (forced : NodeMap Choice) (reserved : ℕ)
    (option : Choice)
    → (if c.pinned then cheapest c else none) ≡ some option
    → reserve (c ∷ candidates) forced reserved
      ≡ reserve candidates (put forced c.node option) (reserved + option.cost)
unfolding reserve
reserve-some c candidates forced reserved option e = ground arith

costs-nil : total (costs []) ≤ 0
unfolding total costs
costs-nil = omega arith

reserve-total :
    (candidates : List Candidate) (forced : NodeMap Choice) (reserved : ℕ)
    → total (costs forced) ≤ reserved
    → total (costs (reserve candidates forced reserved).0) ≤ (reserve candidates forced reserved).1
unfolding reserve
reserve-total [] forced reserved h = h
reserve-total (c ∷ candidates) forced reserved h =
    elim (Option-cases (if c.pinned then cheapest c else none)) [
      | inl e ↦
          rw (reserve-none c candidates forced reserved e)
            (reserve-total candidates forced reserved h)
      | inr (option, e) ↦ rw (reserve-some c candidates forced reserved option e) (
          reserve-total candidates (put forced c.node option) (reserved + option.cost)
            (omega (arith, total-put forced c.node option)))
    ]

admit_one-tokens :
    (u : Utilities) (option : ℕ × Choice) (alloc : Allocation) (budget : ℕ)
    → alloc.budget ≡ budget
    → alloc.tokens ≤ budget
    → ((admit_one u option alloc).budget ≡ budget) × ((admit_one u option alloc).tokens ≤ budget)
unfolding admit_one
admit_one-tokens u (node, option) alloc budget same h =
    elim (Bool-cases (leb (alloc.tokens + option.cost) alloc.budget)) [
      | inl fits ↦ rw fits (same, ground arith)
      | inr not_fitting ↦ rw not_fitting (same, h)
    ]

admit_fitting-tokens :
    (u : Utilities) (options : List (ℕ × Choice)) (alloc : Allocation) (budget : ℕ)
    → alloc.budget ≡ budget
    → alloc.tokens ≤ budget
    → (admit_fitting u options alloc).tokens ≤ budget
unfolding admit_fitting
admit_fitting-tokens u [] alloc budget same h = h
admit_fitting-tokens u (option ∷ options) alloc budget same h =
    let (same', h') = admit_one-tokens u option alloc budget same h in
    admit_fitting-tokens u options (admit_one u option alloc) budget same' h'

overflowing-tokens :
    (u : Utilities) (candidates : List Candidate) (budget : ℕ) (forced : NodeMap Choice)
    → (overflowing u candidates budget forced).tokens ≤ budget
unfolding overflowing
overflowing-tokens u candidates budget forced =
    admit_fitting-tokens u (sort_by (by_utility u) forced) (no_allocation budget) budget refl
      (omega arith)

-- The cost of what the last loop admits for a node.
abbrev admitted : NodeMap Choice → NodeMap (Option Choice) → ℕ → ℕ
admitted forced selections n = cost_of (or_else (find selections n) (find forced n))

allocate_one-tokens :
    (u : Utilities) (forced : NodeMap Choice) (selections : NodeMap (Option Choice))
    (preferred : NodeMap Level) (c : Candidate) (alloc : Allocation)
    → (allocate_one u forced selections preferred c alloc).tokens
      ≡ alloc.tokens + admitted forced selections c.node
unfolding allocate_one
allocate_one-tokens u forced selections preferred c alloc =
    ground (arith, Option-cases (or_else (find selections c.node) (find forced c.node)))

allocate-tokens :
    (u : Utilities) (forced : NodeMap Choice) (selections : NodeMap (Option Choice))
    (preferred : NodeMap Level) (candidates : List Candidate) (alloc : Allocation)
    → (allocate u forced selections preferred candidates alloc).tokens
      ≡ alloc.tokens + sum_at (admitted forced selections) (nodes candidates)
unfolding allocate sum_at
allocate-tokens u forced selections preferred [] alloc = omega arith
allocate-tokens u forced selections preferred (c ∷ candidates) alloc = omega (
  arith,
  allocate-tokens u forced selections preferred candidates
      (allocate_one u forced selections preferred c alloc),
  allocate_one-tokens u forced selections preferred c alloc,
)

sum_at-nothing : (ns : List ℕ) → sum_at (λ n. 0) ns ≡ 0
unfolding sum_at
sum_at-nothing [] = refl
sum_at-nothing (n ∷ ns) = omega (arith, sum_at-nothing ns)

sum_at-forced :
    (forced : NodeMap Choice) (ns : List ℕ)
    → Distinct ns
    → sum_at (λ n. cost_of (find forced n)) ns ≤ total (costs forced)
sum_at-forced forced ns d = omega (
  arith,
  sum_at-le (λ n. cost_of (find forced n)) (look (costs forced)) (λ n. 0) ns
      (λ n. omega (arith, look-costs forced n)),
  sum_at-nothing ns,
  sum_at-look (costs forced) ns d,
)

-- The sum over the candidates, where the selections are those of the table.
admitted-total :
    (u : Utilities) (buckets q : ℕ) (candidates : List Candidate) (forced : NodeMap Choice)
    → 0 < q
    → Distinct (nodes candidates)
    → sum_at (admitted forced (select u buckets q candidates forced)) (nodes candidates)
      ≤ total (costs forced) + q * buckets
unfolding Meets
admitted-total u buckets q candidates forced h d =
    let (spent, meets, le) = select-Meets u buckets q candidates forced h in
    omega (
      arith,
      sum_at-le _ (λ n. cost_of (find forced n)) (look spent) (nodes candidates) meets,
      sum_at-forced forced (nodes candidates) d,
      sum_at-look spent (nodes candidates) d,
    )

one_of : (n : ℕ) → leb 1 n ≡ false → max n 1 ≡ 1
one_of n h = let low : n < 1 = ground arith in omega arith

buckets-le : (q free : ℕ) → q ≤ free → q * max (free / q) 1 ≤ free
buckets-le q free h = elim (Bool-cases (leb 1 (free / q))) [
  | inl more ↦
      let e : max (free / q) 1 ≡ free / q = omega (arith, leb→le 1 (free / q) more) in
      rw e (mul-div-le free q)
  | inr none_more ↦ let e : max (free / q) 1 ≡ 1 = one_of (free / q) none_more in rw e (omega arith)
]

-- The allocation of the table.
table-tokens :
    (u : Utilities) (candidates : List Candidate) (budget q : ℕ) (preferred : NodeMap Level)
    (forced : NodeMap Choice) (reserved : ℕ)
    → Distinct (nodes candidates)
    → total (costs forced) ≤ reserved
    → reserved ≤ budget
    → 0 < q
    → q ≤ budget - reserved
    → (allocate u forced
        (select u (max ((budget - reserved) / q) 1) q candidates forced)
        preferred
        candidates
        (no_allocation budget)).tokens
      ≤ budget
table-tokens u candidates budget q preferred forced reserved d t r h k =
    let buckets = max ((budget - reserved) / q) 1 in
    omega (
      arith,
      allocate-tokens u forced (select u buckets q candidates forced) preferred candidates
          (no_allocation budget),
      admitted-total u buckets q candidates forced h d,
      buckets-le q (budget - reserved) k,
    )

-- Where no node is a candidate twice, the tokens of the allocation are at most the budget: if the
-- pinned options do not fit, and if they do and the quantum, which is not 0, is at most what they leave
-- free.
pub solve-tokens :
    (u : Utilities) (candidates : List Candidate) (budget : ℕ) (quantum : Option ℕ)
    (preferred : NodeMap Level)
    → Distinct (nodes candidates)
    → (budget < (reserve candidates [] 0).1)
      ⊎ ((0 < quantum_for quantum (budget - (reserve candidates [] 0).1))
          × (quantum_for quantum (budget - (reserve candidates [] 0).1)
              ≤ budget - (reserve candidates [] 0).1))
    → (solve u candidates budget quantum preferred).tokens ≤ budget
unfolding solve
solve-tokens u candidates budget quantum preferred d h =
    let forced = reserve candidates [] 0 in
    let free = budget - forced.1 in
    let q = quantum_for quantum free in
    elim (Bool-cases (is_zero_or_none budget candidates)) [
      | inl nothing ↦ rw nothing (omega arith)
      | inr some_left ↦ elim (Bool-cases (ltb budget forced.1)) [
        | inl over ↦ rw (some_left, over) (overflowing-tokens u candidates budget forced.0)
        | inr fits ↦ elim h [
          | inl over ↦ absurd (ground arith)
          | inr (pos, le) ↦
              rw (some_left, fits)
                (table-tokens u candidates budget q preferred forced.0 forced.1 d
                  (reserve-total candidates [] 0 costs-nil) (ground arith) pos le)
        ]
      ]
    ]
