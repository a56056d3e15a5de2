-- ===== src/Budget/Examples.antt =====
-- src/budget.rs: allocations of small budgets. Utilities are small integers here, with the order and the
-- sums of numbers; the bits of minus infinity stand below them.
use subnext.Prelude.{
  ◌≡◌, refl, ℕ, ◌+◌, ◌-◌, ◌≤◌, ◌<◌, ◌⊎◌, true, false, none, List, [], ◌∷◌, compare, ltb, ◌==◌,
  if◌then◌else◌, arith, inr,
}
use subnext.Ladder.{Level, l0, l1, l2}
use subnext.Budget.Maps.{find, put, has}
use subnext.Budget.Sums.{Distinct}
use subnext.Budget.Table.{Utilities, Choice, neg_infinity}
use subnext.Budget.{Candidate, reserve, solve, quantum_for, select, allocate}
use subnext.Budget.Pinned.{has-solve}
use subnext.Budget.Within.{nodes, solve-tokens}

abbrev small : Utilities
small = record {
  add = λ a b. a + b;
  sub = λ a b. a - b;
  equal = λ a b. a == b;
  above = λ a b. if a == neg_infinity then false else if b == neg_infinity then true else ltb b a;
  total_cmp = λ a b. compare a b;
}

abbrev choice : Level → ℕ → ℕ → Choice
choice level cost utility = record { level = level; cost = cost; utility = utility }

-- A pinned node with two levels, and two others.
abbrev pinned_one : Candidate
pinned_one = record { node = 1; options = choice l2 2 1 ∷ choice l1 5 4 ∷ []; pinned = true }

abbrev two_others : List Candidate
two_others =
    record { node = 2; options = choice l2 3 5 ∷ []; pinned = false }
    ∷ record { node = 3; options = choice l0 6 9 ∷ choice l2 2 2 ∷ []; pinned = false }
    ∷ []

abbrev three : List Candidate
three = pinned_one ∷ two_others

spent : (solve small three 8 none []).tokens ≡ 8
unfolding solve reserve select allocate find put
spent = refl

-- The pinned option takes the whole budget, and another option is admitted all the same.
abbrev tight : List Candidate
tight =
    record { node = 1; options = choice l2 5 1 ∷ []; pinned = true }
    ∷ record { node = 2; options = choice l2 1 1 ∷ []; pinned = false }
    ∷ []

over_budget : (solve small tight 5 none []).tokens ≡ 6
unfolding solve reserve select allocate find put
over_budget = refl

three-Distinct : Distinct (nodes three)
unfolding Distinct
three-Distinct = ((refl, (refl, tt)), ((refl, tt), (tt, tt)))

fits :
    (8 < (reserve three [] 0).1)
    ⊎ ((0 < quantum_for none (8 - (reserve three [] 0).1))
        × (quantum_for none (8 - (reserve three [] 0).1) ≤ 8 - (reserve three [] 0).1))
unfolding reserve
fits = inr (omega arith, omega arith)

solve-tokens_example : (solve small three 8 none []).tokens ≤ 8
solve-tokens_example = solve-tokens small three 8 none [] three-Distinct fits

reserved_fits : (reserve three [] 0).1 ≤ 8
unfolding reserve
reserved_fits = omega arith

has-solve_example : has (solve small three 8 none []).chosen 1 ≡ true
has-solve_example =
    has-solve small [] pinned_one two_others 8 none [] (choice l2 2 1) (choice l1 5 4 ∷ []) refl
      refl (omega arith) reserved_fits
