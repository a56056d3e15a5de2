-- ===== src/Budget/Spending.antt =====
-- src/budget.rs: what the walk back through the table spends.
use subnext.Prelude.{
  ◌≡◌, ap, sym, subst, ◌∙◌, ℕ, zero, suc, ◌+◌, ◌-◌, ◌*◌, ◌≤◌, ◌<◌, Option, none, some, List, [],
  ◌∷◌, get_or, arith, All, Option-cases, inl, inr,
}
use native.Mathlib.Nat.{mul-add}
use subnext.Budget.Maps.{NodeMap, find, put, find-put}
use subnext.Budget.Table.{
  Utilities, Choice, Entry, no_entry, run_table, better_capacity, max_from, best_capacity,
}
use subnext.Budget.Sums.{total, look, cost_of}
use subnext.Budget.{Candidate, items_of, trace_back, or_else, select}
use subnext.Budget.Rows.{Covers, get_or-All, Fits, Sound, items_of-Covers, table_rows-Sound}

-- The selections cost no more than the forced options and what is spent.
unfoldable pub Meets : NodeMap Choice → NodeMap (Option Choice) → NodeMap ℕ → Type 0
Meets forced selections spent =
    (n : ℕ)
    → cost_of (or_else (find selections n) (find forced n)) ≤ cost_of (find forced n) + look spent n

Meets-start : (forced : NodeMap Choice) → Meets forced [] []
unfolding Meets find look
Meets-start forced n = omega arith

Meets-forced :
    (forced : NodeMap Choice) (selections : NodeMap (Option Choice)) (spent : NodeMap ℕ) (node : ℕ)
    → Meets forced selections spent
    → Meets forced (put selections node (find forced node)) spent
unfolding Meets
Meets-forced forced selections spent node m n =
    ground
      (arith, m n, find-put selections node n (find forced node), Option-cases (find forced node))

Meets-entry :
    (forced : NodeMap Choice) (selections : NodeMap (Option Choice)) (spent : NodeMap ℕ)
    (node q : ℕ) (entry : Entry)
    → Covers q (find forced node) entry
    → Meets forced selections spent
    → Meets forced (put selections node entry.option) ((node, q * entry.cost_b) ∷ spent)
unfolding Meets look
Meets-entry forced selections spent node q entry c m n =
    ground (arith, m n, c, find-put selections node n entry.option)

mul-split : (q c capacity : ℕ) → c ≤ capacity → q * c + q * (capacity - c) ≡ q * capacity
mul-split q c capacity h = sym (mul-add q c (capacity - c)) ∙ ap (λ t. q * t) (omega arith)

trace_back-none :
    (forced : NodeMap Choice) (node : ℕ) (entries : List Entry) (picks : List (Option ℕ))
    (rows : List ((ℕ × List Entry) × List (Option ℕ))) (capacity : ℕ)
    (selections : NodeMap (Option Choice))
    → get_or picks capacity none ≡ none
    → trace_back forced (((node, entries), picks) ∷ rows) capacity selections
      ≡ trace_back forced rows capacity (put selections node (find forced node))
unfolding trace_back
trace_back-none forced node entries picks rows capacity selections e = ground arith

trace_back-some :
    (forced : NodeMap Choice) (node : ℕ) (entries : List Entry) (picks : List (Option ℕ))
    (rows : List ((ℕ × List Entry) × List (Option ℕ))) (capacity pick : ℕ)
    (selections : NodeMap (Option Choice))
    → get_or picks capacity none ≡ some pick
    → let entry = get_or entries pick no_entry in
      trace_back forced (((node, entries), picks) ∷ rows) capacity selections
      ≡ trace_back forced rows (capacity - entry.cost_b) (put selections node entry.option)
unfolding trace_back
trace_back-some forced node entries picks rows capacity pick selections e = ground arith

trace_back-Meets :
    (q : ℕ) (forced : NodeMap Choice) (rows : List ((ℕ × List Entry) × List (Option ℕ)))
    (capacity : ℕ) (selections : NodeMap (Option Choice)) (spent : NodeMap ℕ)
    → All (Sound q forced) rows
    → Meets forced selections spent
    → (spent' : NodeMap ℕ) × Meets forced (trace_back forced rows capacity selections) spent'
      × (total spent' ≤ total spent + q * capacity)
unfolding trace_back Sound total
trace_back-Meets q forced [] capacity selections spent h m = (spent, m, omega arith)
trace_back-Meets q forced (((node, entries), picks) ∷ rows) capacity selections spent
      ((covers, fits), h) m =
    elim (Option-cases (get_or picks capacity none)) [
      | inl e ↦ rw (trace_back-none forced node entries picks rows capacity selections e) (
          trace_back-Meets q forced rows capacity (put selections node (find forced node)) spent h
            (Meets-forced forced selections spent node m))
      | inr (pick, e) ↦
          let entry = get_or entries pick no_entry in
          let fit : entry.cost_b ≤ capacity =
            subst (λ p. Fits entries capacity p) e (fits capacity) in
          let (spent', m', le) =
            trace_back-Meets q forced rows (capacity - entry.cost_b)
              (put selections node entry.option) ((node, q * entry.cost_b) ∷ spent) h
              (Meets-entry forced selections spent node q entry
                (get_or-All (Covers q (find forced node)) entries pick covers (omega arith)) m) in
          rw (trace_back-some forced node entries picks rows capacity pick selections e)
            (spent', m', omega (arith, le, mul-split q entry.cost_b capacity fit))
    ]

better_capacity-le :
    (u : Utilities) (dp : List ℕ) (best capacity bound : ℕ)
    → best ≤ bound
    → capacity ≤ bound
    → better_capacity u dp best capacity ≤ bound
unfolding better_capacity
better_capacity-le u dp best capacity bound h k = ground arith

max_from-le :
    (u : Utilities) (dp : List ℕ) (best capacity n bound : ℕ)
    → best ≤ bound
    → capacity + n ≤ suc bound
    → max_from u dp best capacity n ≤ bound
unfolding max_from
max_from-le u dp best capacity zero bound h k = h
max_from-le u dp best capacity (suc n) bound h k =
    max_from-le u dp (better_capacity u dp best capacity) (suc capacity) n bound
      (better_capacity-le u dp best capacity bound h (omega arith)) (omega arith)

total-le :
    (t q capacity buckets : ℕ) → t ≤ total [] + q * capacity → capacity ≤ buckets → t ≤ q * buckets
unfolding total
total-le t q capacity buckets h k = omega (arith, h, mul-split q capacity buckets k)

-- What the selections cost above the forced options is in the buckets.
pub select-Meets :
    (u : Utilities) (buckets q : ℕ) (candidates : List Candidate) (forced : NodeMap Choice)
    → 0 < q
    → (spent : NodeMap ℕ) × Meets forced (select u buckets q candidates forced) spent
      × (total spent ≤ q * buckets)
unfolding select run_table best_capacity
select-Meets u buckets q candidates forced h =
    let items = items_of u q candidates forced in
    let table = run_table u buckets items in
    let (spent, m, le) =
      trace_back-Meets q forced table.1 (best_capacity u buckets table.0) [] []
        (table_rows-Sound u buckets q forced _ items [] (items_of-Covers u q candidates forced h)
          tt)
        (Meets-start forced) in
    (
      spent,
      m,
      total-le (total spent) q _ buckets le
          (max_from-le u table.0 0 1 buckets buckets (omega arith) (omega arith)),
    )
