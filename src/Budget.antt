-- ===== src/Budget.antt =====
-- src/budget.rs: the choice of a level for each candidate within a budget of tokens, by a table over
-- quantised costs. A utility, an `f32`, is its bit pattern; a map by node is an association list.
pub mod Maps
mod Sums
pub mod Table
pub mod Rows
mod Spending
mod Within
mod Pinned
mod Examples
use subnext.Prelude.{
  ℕ, suc, ◌+◌, ◌-◌, ◌*◌, ◌/◌, Bool, true, false, Option, none, some, List, [], ◌∷◌, ◌++◌, map,
  length, min, max, get_or, replicate, compare, Ordering, ltb, leb, ◌==◌, if◌then◌else◌,
}
use subnext.Prelude.Bytes.{then_cmp, sort_by}
use subnext.Ladder.{Level, order}
use subnext.Budget.Maps.{NodeMap, find, put, has}
use subnext.Budget.Table.{
  Utilities, Choice, Entry, entries_from, run_table, best_capacity, no_entry, ceil_div,
}

pub record Candidate : Type 0 where
  pub node : ℕ
  pub options : List Choice
  pub pinned : Bool

-- `min_by`, which keeps the first of equal options.
unfoldable cheaper : Choice → Choice → Choice
cheaper a b = elim (then_cmp (compare b.cost a.cost) (compare (order b.level) (order a.level))) [
  | Ordering.lt ↦ b
  | _ ↦ a
]

pub min_from : Choice → List Choice → Choice
unfolding cheaper
min_from best [] = best
min_from best (option ∷ options) = min_from (cheaper best option) options

pub cheapest : Candidate → Option Choice
unfolding min_from
cheapest c = elim c.options [ [] ↦ none | option ∷ options ↦ some (min_from option options) ]

pub record Allocation : Type 0 where
  pub chosen : NodeMap Choice
  pub tokens : ℕ
  pub utility : ℕ
  pub budget : ℕ
  pub dropped : List ℕ
  pub demoted : List (ℕ × Level × Level)
  pub overflow : Bool

abbrev pub no_allocation : ℕ → Allocation
no_allocation budget = record {
  chosen = [];
  tokens = 0;
  utility = 0;
  budget = budget;
  dropped = [];
  demoted = [];
  overflow = false;
}

abbrev max_dp_buckets : ℕ
max_dp_buckets = 400

-- The loop over the pinned candidates: the forced options, and the sum of their costs.
pub reserve : List Candidate → NodeMap Choice → ℕ → NodeMap Choice × ℕ
unfolding cheapest
reserve [] forced reserved = (forced, reserved)
reserve (c ∷ candidates) forced reserved = elim (if c.pinned then cheapest c else none) [
  | none ↦ reserve candidates forced reserved
  | some option ↦ reserve candidates (put forced c.node option) (reserved + option.cost)
]

-- The order in which the pinned options are admitted where not all fit: by utility, then by node.
abbrev pub by_utility : Utilities → ℕ × Choice → ℕ × Choice → Ordering
by_utility u (n, a) (m, b) = then_cmp (u.total_cmp b.utility a.utility) (compare n m)

pub admit_one : Utilities → ℕ × Choice → Allocation → Allocation
admit_one u (node, option) alloc =
    if leb (alloc.tokens + option.cost) alloc.budget
    then record alloc {
      tokens = alloc.tokens + option.cost;
      utility = u.add alloc.utility option.utility;
      chosen = put alloc.chosen node option;
    }
    else alloc

pub admit_fitting : Utilities → List (ℕ × Choice) → Allocation → Allocation
unfolding admit_one
admit_fitting u [] alloc = alloc
admit_fitting u (option ∷ rest) alloc = admit_fitting u rest (admit_one u option alloc)

unfoldable nodes_without : List Candidate → NodeMap Choice → List ℕ
nodes_without [] chosen = []
nodes_without (c ∷ candidates) chosen =
    let rest = nodes_without candidates chosen in if has chosen c.node then rest else c.node ∷ rest

-- The pinned options do not fit.
pub overflowing : Utilities → List Candidate → ℕ → NodeMap Choice → Allocation
unfolding admit_fitting nodes_without sort_by
overflowing u candidates budget forced =
    let alloc = admit_fitting u (sort_by (by_utility u) forced) (no_allocation budget) in
    record alloc { overflow = true; dropped = nodes_without candidates alloc.chosen }

-- The items: each candidate with options, and its entries.
pub items_of : Utilities → ℕ → List Candidate → NodeMap Choice → List (ℕ × List Entry)
unfolding entries_from
items_of u quantum [] forced = []
items_of u quantum (c ∷ candidates) forced =
    let rest = items_of u quantum candidates forced in
    elim c.options [
      | [] ↦ rest
      | option ∷ options ↦ (c.node, entries_from u quantum (find forced c.node) c.options) ∷ rest
    ]

-- The walk back through the picks, from the last item: the selections.
pub trace_back :
    NodeMap Choice
    → List ((ℕ × List Entry) × List (Option ℕ))
    → ℕ
    → NodeMap (Option Choice)
    → NodeMap (Option Choice)
trace_back forced [] capacity selections = selections
trace_back forced (((node, entries), picks) ∷ rest) capacity selections =
    elim (get_or picks capacity none) [
      | none ↦ trace_back forced rest capacity (put selections node (find forced node))
      | some pick ↦
          let entry = get_or entries pick no_entry in
          trace_back forced rest (capacity - entry.cost_b) (put selections node entry.option)
    ]

abbrev pub or_else {ℓ} : {A : Type ℓ} → Option (Option A) → Option A → Option A
or_else (some (some a)) other = some a
or_else (some none) other = other
or_else none other = other

-- The last loop over the candidates.
abbrev demotion : ℕ → Option Level → Level → List (ℕ × Level × Level)
demotion node none level = []
demotion node (some wanted) level =
    if order wanted == order level then [] else (node, wanted, level) ∷ []

pub allocate_one :
    Utilities
    → NodeMap Choice
    → NodeMap (Option Choice)
    → NodeMap Level
    → Candidate
    → Allocation
    → Allocation
allocate_one u forced selections preferred c alloc =
    elim (or_else (find selections c.node) (find forced c.node)) [
      | none ↦ record alloc { dropped = alloc.dropped ++ (c.node ∷ []) }
      | some option ↦ record alloc {
        tokens = alloc.tokens + option.cost;
        utility = u.add alloc.utility option.utility;
        chosen = put alloc.chosen c.node option;
        demoted = alloc.demoted ++ demotion c.node (find preferred c.node) option.level;
      }
    ]

pub allocate :
    Utilities
    → NodeMap Choice
    → NodeMap (Option Choice)
    → NodeMap Level
    → List Candidate
    → Allocation
    → Allocation
unfolding allocate_one
allocate u forced selections preferred [] alloc = alloc
allocate u forced selections preferred (c ∷ candidates) alloc =
    allocate u forced selections preferred candidates
      (allocate_one u forced selections preferred c alloc)

-- The final sorts.
abbrev by_node : ℕ × Level × Level → ℕ × Level × Level → Ordering
by_node (n, wanted, level) (m, wanted', level') = compare n m

abbrev pub sorted : Allocation → Allocation
sorted alloc = record alloc {
  demoted = sort_by by_node alloc.demoted;
  dropped = sort_by compare alloc.dropped;
}

abbrev pub quantum_for : Option ℕ → ℕ → ℕ
quantum_for none free_budget = max (ceil_div free_budget max_dp_buckets) 1
quantum_for (some quantum) free_budget = quantum

-- The table and the walk back, once the pinned options fit.
unfoldable pub select :
    Utilities → ℕ → ℕ → List Candidate → NodeMap Choice → NodeMap (Option Choice)
unfolding items_of run_table best_capacity trace_back
select u buckets quantum candidates forced =
    let items = items_of u quantum candidates forced in
    let table = run_table u buckets items in
    trace_back forced (table.1) (best_capacity u buckets table.0) []

abbrev any_pinned : List Candidate → Bool
any_pinned [] = false
any_pinned (c ∷ candidates) = if c.pinned then true else any_pinned candidates

abbrev pub is_zero_or_none : ℕ → List Candidate → Bool
is_zero_or_none budget [] = true
is_zero_or_none budget (c ∷ candidates) = budget == 0

-- A quantum of 0 is divided by 0 here, where the source panics.
pub solve : Utilities → List Candidate → ℕ → Option ℕ → NodeMap Level → Allocation
unfolding reserve overflowing select allocate
solve u candidates budget quantum preferred =
    let forced = reserve candidates [] 0 in
    let free_budget = budget - forced.1 in
    let q = quantum_for quantum free_budget in
    let selections = select u (max (free_budget / q) 1) q candidates forced.0 in
    if is_zero_or_none budget candidates
    then record (no_allocation budget) {
      dropped = map (λ (c : Candidate). c.node) candidates;
      overflow = any_pinned candidates;
    }
    else if ltb budget forced.1
    then overflowing u candidates budget forced.0
    else sorted (allocate u forced.0 selections preferred candidates (no_allocation budget))
