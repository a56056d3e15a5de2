-- ===== src/Budget/Pinned.antt =====
-- src/budget.rs: the pinned candidates are admitted.
use subnext.Prelude.{
  ◌≡◌, refl, ℕ, ◌+◌, ◌≤◌, ◌<◌, true, false, Option, none, some, List, [], ◌∷◌, ◌++◌, ltb,
  if◌then◌else◌, arith, Option-cases, inl, inr,
}
use subnext.Ladder.{Level}
use subnext.Budget.Maps.{NodeMap, find, put, has, has_value, find-put}
use subnext.Budget.Table.{Utilities, Choice}
use subnext.Budget.Within.{reserve-none, reserve-some}
use subnext.Budget.{
  Candidate, Allocation, no_allocation, cheapest, min_from, reserve, allocate, allocate_one,
  or_else, solve, is_zero_or_none,
}

module _ {V : Type 0} where
  has-put_same : (m : NodeMap V) (k : ℕ) (v : V) → has (put m k v) k ≡ true
  unfolding has
  has-put_same m k v = ground (arith, find-put m k k v)

  has-put : (m : NodeMap V) (k j : ℕ) (v : V) → has m j ≡ true → has (put m k v) j ≡ true
  unfolding has
  has-put m k j v h = ground (arith, find-put m k j v)

reserve-keeps :
    (candidates : List Candidate) (forced : NodeMap Choice) (reserved n : ℕ)
    → has forced n ≡ true
    → has (reserve candidates forced reserved).0 n ≡ true
unfolding reserve
reserve-keeps [] forced reserved n h = h
reserve-keeps (c ∷ candidates) forced reserved n h =
    elim (Option-cases (if c.pinned then cheapest c else none)) [
      | inl e ↦
          rw (reserve-none c candidates forced reserved e)
            (reserve-keeps candidates forced reserved n h)
      | inr (option, e) ↦ rw (reserve-some c candidates forced reserved option e) (
          reserve-keeps candidates (put forced c.node option) (reserved + option.cost) n
            (has-put forced c.node n option h))
    ]

cheapest-some :
    (c : Candidate) (option : Choice) (options : List Choice)
    → c.options ≡ option ∷ options
    → cheapest c ≡ some (min_from option options)
unfolding cheapest
cheapest-some c option options e = rw e refl

reserve-has :
    (front : List Candidate) (c : Candidate) (back : List Candidate) (forced : NodeMap Choice)
    (reserved : ℕ) (option : Choice)
    → (if c.pinned then cheapest c else none) ≡ some option
    → has (reserve (front ++ (c ∷ back)) forced reserved).0 c.node ≡ true
reserve-has [] c back forced reserved option e = rw (reserve-some c back forced reserved option e) (
    reserve-keeps back (put forced c.node option) (reserved + option.cost) c.node
      (has-put_same forced c.node option))
reserve-has (d ∷ front) c back forced reserved option e =
    elim (Option-cases (if d.pinned then cheapest d else none)) [
      | inl e' ↦
          rw (reserve-none d (front ++ (c ∷ back)) forced reserved e')
            (reserve-has front c back forced reserved option e)
      | inr (option', e') ↦
          rw (reserve-some d (front ++ (c ∷ back)) forced reserved option' e') (
            reserve-has front c back (put forced d.node option') (reserved + option'.cost) option e)
    ]

or_else-ne-none :
    (found : Option (Option Choice)) (base : Option Choice)
    → has_value base ≡ true
    → or_else found base ≡ none
    → ⊥
or_else-ne-none (some (some a)) base h e = cc
or_else-ne-none (some none) none h e = cc
or_else-ne-none (some none) (some a) h e = cc
or_else-ne-none none none h e = cc
or_else-ne-none none (some a) h e = cc

module _ (u : Utilities) (forced : NodeMap Choice) (selections : NodeMap (Option Choice))
    (preferred : NodeMap Level) where
  allocate_one-none :
      (c : Candidate) (alloc : Allocation)
      → or_else (find selections c.node) (find forced c.node) ≡ none
      → (allocate_one u forced selections preferred c alloc).chosen ≡ alloc.chosen
  unfolding allocate_one
  allocate_one-none c alloc e = ground arith

  allocate_one-some :
      (c : Candidate) (alloc : Allocation) (option : Choice)
      → or_else (find selections c.node) (find forced c.node) ≡ some option
      → (allocate_one u forced selections preferred c alloc).chosen ≡ put alloc.chosen c.node option
  unfolding allocate_one
  allocate_one-some c alloc option e = ground arith

  allocate_one-keeps :
      (c : Candidate) (alloc : Allocation) (n : ℕ)
      → has alloc.chosen n ≡ true
      → has (allocate_one u forced selections preferred c alloc).chosen n ≡ true
  allocate_one-keeps c alloc n h =
      elim (Option-cases (or_else (find selections c.node) (find forced c.node))) [
        | inl e ↦ rw (allocate_one-none c alloc e) h
        | inr (option, e) ↦
            rw (allocate_one-some c alloc option e) (has-put alloc.chosen c.node n option h)
      ]

  allocate_one-has :
      (c : Candidate) (alloc : Allocation)
      → has forced c.node ≡ true
      → has (allocate_one u forced selections preferred c alloc).chosen c.node ≡ true
  unfolding has
  allocate_one-has c alloc h =
      elim (Option-cases (or_else (find selections c.node) (find forced c.node))) [
        | inl e ↦ absurd (or_else-ne-none (find selections c.node) (find forced c.node) h e)
        | inr (option, e) ↦
            rw (allocate_one-some c alloc option e) (has-put_same alloc.chosen c.node option)
      ]

  allocate-keeps :
      (candidates : List Candidate) (alloc : Allocation) (n : ℕ)
      → has alloc.chosen n ≡ true
      → has (allocate u forced selections preferred candidates alloc).chosen n ≡ true
  unfolding allocate
  allocate-keeps [] alloc n h = h
  allocate-keeps (c ∷ candidates) alloc n h =
      allocate-keeps candidates (allocate_one u forced selections preferred c alloc) n
        (allocate_one-keeps c alloc n h)

  allocate-has :
      (front : List Candidate) (c : Candidate) (back : List Candidate) (alloc : Allocation)
      → has forced c.node ≡ true
      → has (allocate u forced selections preferred (front ++ (c ∷ back)) alloc).chosen c.node
        ≡ true
  unfolding allocate
  allocate-has [] c back alloc h =
      allocate-keeps back (allocate_one u forced selections preferred c alloc) c.node
        (allocate_one-has c alloc h)
  allocate-has (d ∷ front) c back alloc h =
      allocate-has front c back (allocate_one u forced selections preferred d alloc) h

some_candidate :
    (front : List Candidate) (c : Candidate) (back : List Candidate) (budget : ℕ)
    → 0 < budget
    → is_zero_or_none budget (front ++ (c ∷ back)) ≡ false
some_candidate [] c back budget h = ground arith
some_candidate (d ∷ front) c back budget h = ground arith

-- A pinned candidate that has an option is admitted at some level, if the budget is not 0 and the forced
-- options of all pinned candidates fit.
pub has-solve :
    (u : Utilities) (front : List Candidate) (c : Candidate) (back : List Candidate) (budget : ℕ)
    (quantum : Option ℕ) (preferred : NodeMap Level) (option : Choice) (options : List Choice)
    → c.pinned ≡ true
    → c.options ≡ option ∷ options
    → 0 < budget
    → (reserve (front ++ (c ∷ back)) [] 0).1 ≤ budget
    → has (solve u (front ++ (c ∷ back)) budget quantum preferred).chosen c.node ≡ true
unfolding solve
has-solve u front c back budget quantum preferred option options pinned e pos fits =
    let candidates = front ++ (c ∷ back) in
    let some_left : is_zero_or_none budget candidates ≡ false =
      some_candidate front c back budget pos in
    let fitting : ltb budget (reserve candidates [] 0).1 ≡ false = ground arith in
    rw (some_left, fitting)
      (allocate-has u (reserve candidates [] 0).0 _ preferred front c back (no_allocation budget) (
        reserve-has front c back [] 0 (min_from option options)
          (rw (pinned, cheapest-some c option options e) refl)))
