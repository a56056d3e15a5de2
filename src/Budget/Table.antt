-- ===== src/Budget/Table.antt =====
-- src/budget.rs: the entries of an item and the table of best values by capacity, with the picks.
use subnext.Prelude.{
  ℕ, zero, suc, ◌+◌, ◌-◌, ◌/◌, Bool, Option, none, some, List, [], ◌∷◌, map, get_or, replicate,
  compare, Ordering, ltb, leb, if◌then◌else◌,
}
use subnext.Prelude.Bytes.{then_cmp}
use subnext.Ladder.{Level}

-- What the program uses of `f32`, whose values are their bit patterns: addition and subtraction, the
-- equality of `prev == neg`, the order of `total > best_value`, and `total_cmp`.
pub record Utilities : Type 0 where
  pub add : ℕ → ℕ → ℕ
  pub sub : ℕ → ℕ → ℕ
  pub equal : ℕ → ℕ → Bool
  pub above : ℕ → ℕ → Bool
  pub total_cmp : ℕ → ℕ → Ordering

-- `f32::NEG_INFINITY`
abbrev pub neg_infinity : ℕ
neg_infinity = 0xff800000

pub record Choice : Type 0 where
  pub level : Level
  pub cost : ℕ
  pub utility : ℕ

-- A choice of an item: its cost in buckets, its value, and the option that it stands for.
pub record Entry : Type 0 where
  pub cost_b : ℕ
  pub value : ℕ
  pub option : Option Choice

abbrev pub no_entry : Entry
no_entry = record { cost_b = 0; value = 0; option = none }

-- `div_ceil`
abbrev pub ceil_div : ℕ → ℕ → ℕ
ceil_div a b = (a + (b - 1)) / b

unfoldable pub plain_entries : ℕ → List Choice → List Entry
plain_entries quantum [] = []
plain_entries quantum (option ∷ options) =
    record { cost_b = ceil_div option.cost quantum; value = option.utility; option = some option }
    ∷ plain_entries quantum options

-- The options that cost more than the forced one, each by what it adds.
unfoldable pub upgrade_entries : Utilities → ℕ → Choice → List Choice → List Entry
upgrade_entries u quantum base [] = []
upgrade_entries u quantum base (option ∷ options) =
    let rest = upgrade_entries u quantum base options in
    if leb option.cost base.cost
    then rest
    else record {
      cost_b = ceil_div (option.cost - base.cost) quantum;
      value = u.sub option.utility base.utility;
      option = some option;
    }
      ∷ rest

unfoldable pub entries_from : Utilities → ℕ → Option Choice → List Choice → List Entry
unfolding plain_entries upgrade_entries
entries_from u quantum none options = no_entry ∷ plain_entries quantum options
entries_from u quantum (some base) options =
    record { cost_b = 0; value = 0; option = some base } ∷ upgrade_entries u quantum base options

-- The loop over the entries, from number `ci`, for one capacity: the best value, and its entry.
unfoldable pub pick_entry : Utilities → List ℕ → ℕ → ℕ → List Entry → ℕ × Option ℕ → ℕ × Option ℕ
pick_entry u dp capacity ci [] best = best
pick_entry u dp capacity ci (entry ∷ entries) best =
    let prev = get_or dp (capacity - entry.cost_b) 0 in
    let total = u.add prev entry.value in
    pick_entry u dp capacity (suc ci) entries (
      if ltb capacity entry.cost_b
      then best
      else if u.equal prev neg_infinity
      then best
      else if u.above total best.0
      then (total, some ci)
      else best)

-- The loop over the capacities, for one item, from `capacity` and over `n` of them.
unfoldable pub row_from : Utilities → List ℕ → List Entry → ℕ → ℕ → List (ℕ × Option ℕ)
unfolding pick_entry
row_from u dp entries capacity zero = []
row_from u dp entries capacity (suc n) =
    pick_entry u dp capacity 0 entries (neg_infinity, none) ∷ row_from u dp entries (suc capacity) n

-- The loop over the items: the last row of values, and the items with their picks, the last one first.
unfoldable pub table_rows :
    Utilities
    → ℕ
    → List ℕ
    → List (ℕ × List Entry)
    → List ((ℕ × List Entry) × List (Option ℕ))
    → List ℕ × List ((ℕ × List Entry) × List (Option ℕ))
unfolding row_from
table_rows u buckets dp [] back = (dp, back)
table_rows u buckets dp (item ∷ items) back =
    let row = row_from u dp item.1 0 (suc buckets) in
    table_rows u buckets (map (λ (r : ℕ × Option ℕ). r.0) row) items
      ((item, map (λ (r : ℕ × Option ℕ). r.1) row) ∷ back)

unfoldable pub run_table :
    Utilities → ℕ → List (ℕ × List Entry) → List ℕ × List ((ℕ × List Entry) × List (Option ℕ))
unfolding table_rows
run_table u buckets items = table_rows u buckets (replicate (suc buckets) 0) items []

-- The comparison of `max_by`: of two capacities with equal values the smaller wins.
unfoldable pub better_capacity : Utilities → List ℕ → ℕ → ℕ → ℕ
better_capacity u dp best capacity =
    elim (then_cmp (u.total_cmp (get_or dp best 0) (get_or dp capacity 0))
      (compare capacity best)) [ Ordering.gt ↦ best | _ ↦ capacity ]

-- `max_by` over the capacities from `capacity`, `n` of them.
unfoldable pub max_from : Utilities → List ℕ → ℕ → ℕ → ℕ → ℕ
unfolding better_capacity
max_from u dp best capacity zero = best
max_from u dp best capacity (suc n) =
    max_from u dp (better_capacity u dp best capacity) (suc capacity) n

unfoldable pub best_capacity : Utilities → ℕ → List ℕ → ℕ
unfolding max_from
best_capacity u buckets dp = max_from u dp 0 1 buckets
