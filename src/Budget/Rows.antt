-- ===== src/Budget/Rows.antt =====
-- src/budget.rs: what a row of the table and its picks cost.
use subnext.Prelude.{
  ◌≡◌, ap, subst, ◌∙◌, ℕ, zero, suc, ◌+◌, ◌-◌, ◌*◌, ◌/◌, ◌≤◌, ◌<◌, Option, none, some, List, [],
  ◌∷◌, map, get_or, ltb, leb, if◌then◌else◌, arith, All, Bool-cases, List-cases, inl, inr,
}
use native.Mathlib.Nat.{lt-mul-div-succ, mul-add}
use subnext.Budget.Maps.{NodeMap, find}
use subnext.Budget.Table.{
  Utilities, Choice, Entry, no_entry, neg_infinity, ceil_div, plain_entries, upgrade_entries,
  entries_from, pick_entry, row_from, table_rows,
}
use subnext.Budget.Sums.{cost_of}
use subnext.Budget.{Candidate, items_of, or_else}

le-ceil_div : (a q : ℕ) → 0 < q → a ≤ q * ceil_div a q
le-ceil_div a q h = omega (arith, lt-mul-div-succ (a + (q - 1)) h, mul-add q ((a + (q - 1)) / q) 1)

-- What an entry stands for costs no more than the forced option and its buckets.
abbrev pub Covers : ℕ → Option Choice → Entry → Type 0
Covers q base e = cost_of (or_else (some e.option) base) ≤ cost_of base + q * e.cost_b

plain_entries-Covers :
    (q : ℕ) (options : List Choice) → 0 < q → All (Covers q none) (plain_entries q options)
unfolding plain_entries
plain_entries-Covers q [] h = tt
plain_entries-Covers q (option ∷ options) h =
    (omega (arith, le-ceil_div option.cost q h), plain_entries-Covers q options h)

upgrade_entries-Covers :
    (u : Utilities) (q : ℕ) (base : Choice) (options : List Choice)
    → 0 < q
    → All (Covers q (some base)) (upgrade_entries u q base options)
unfolding upgrade_entries
upgrade_entries-Covers u q base [] h = tt
upgrade_entries-Covers u q base (option ∷ options) h =
    elim (Bool-cases (leb option.cost base.cost)) [
      | inl low ↦ rw low (upgrade_entries-Covers u q base options h)
      | inr high ↦ rw high (
        (let above : base.cost < option.cost = ground arith in
            omega (arith, le-ceil_div (option.cost - base.cost) q h)),
        upgrade_entries-Covers u q base options h,
      )
    ]

entries_from-Covers :
    (u : Utilities) (q : ℕ) (base : Option Choice) (options : List Choice)
    → 0 < q
    → All (Covers q base) (entries_from u q base options)
unfolding entries_from
entries_from-Covers u q none options h = (omega arith, plain_entries-Covers q options h)
entries_from-Covers u q (some base) options h =
    (omega arith, upgrade_entries-Covers u q base options h)

pub get_or-All :
    (P : Entry → Type 0) (es : List Entry) (i : ℕ)
    → All P es
    → P no_entry
    → P (get_or es i no_entry)
get_or-All P [] i h d = d
get_or-All P (e ∷ es) zero h d = h.0
get_or-All P (e ∷ es) (suc i) h d = get_or-All P es i h.1 d

-- A pick fits a capacity.
abbrev pub Fits : List Entry → ℕ → Option ℕ → Type 0
Fits entries capacity none = Unit
Fits entries capacity (some pick) = (get_or entries pick no_entry).cost_b ≤ capacity

better-Fits :
    (u : Utilities) (dp : List ℕ) (all : List Entry) (capacity ci : ℕ) (entry : Entry)
    (best : ℕ × Option ℕ)
    → get_or all ci no_entry ≡ entry
    → Fits all capacity best.1
    → let total = u.add (get_or dp (capacity - entry.cost_b) 0) entry.value in
      Fits all capacity
        (if ltb capacity entry.cost_b
          then best
          else if u.equal (get_or dp (capacity - entry.cost_b) 0) neg_infinity
          then best
          else if u.above total best.0
          then (total, some ci)
          else best).1
better-Fits u dp all capacity ci entry best same f =
    let prev = get_or dp (capacity - entry.cost_b) 0 in
    elim (Bool-cases (ltb capacity entry.cost_b)) [
      | inl dear ↦ rw dear f
      | inr fits ↦ elim (Bool-cases (u.equal prev neg_infinity)) [
        | inl none_there ↦ rw (fits, none_there) f
        | inr there ↦ elim (Bool-cases (u.above (u.add prev entry.value) best.0)) [
          | inl better ↦ rw (fits, there, better, same) (ground arith)
          | inr worse ↦ rw (fits, there, worse) f
        ]
      ]
    ]

pick_entry-Fits :
    (u : Utilities) (dp : List ℕ) (all : List Entry) (capacity ci : ℕ) (entries : List Entry)
    (best : ℕ × Option ℕ)
    → ((i : ℕ) → get_or all (ci + i) no_entry ≡ get_or entries i no_entry)
    → Fits all capacity best.1
    → Fits all capacity (pick_entry u dp capacity ci entries best).1
unfolding pick_entry
pick_entry-Fits u dp all capacity ci [] best same f = f
pick_entry-Fits u dp all capacity ci (entry ∷ entries) best same f =
    pick_entry-Fits u dp all capacity (suc ci) entries _
      (λ i. ap (λ k. get_or all k no_entry) (omega arith) ∙ same (suc i))
      (better-Fits u dp all capacity ci entry best
        (ap (λ k. get_or all k no_entry) (omega arith) ∙ same 0) f)

row_from-Fits :
    (u : Utilities) (dp : List ℕ) (entries : List Entry) (capacity n i : ℕ)
    → Fits entries
        (capacity + i)
        (get_or (map (λ (r : ℕ × Option ℕ). r.1) (row_from u dp entries capacity n)) i none)
unfolding row_from
row_from-Fits u dp entries capacity zero i = tt
row_from-Fits u dp entries capacity (suc n) zero =
    subst (λ k. Fits entries k (pick_entry u dp capacity 0 entries (neg_infinity, none)).1)
      (omega arith)
      (pick_entry-Fits u dp entries capacity 0 entries (neg_infinity, none)
        (λ i. ap (λ k. get_or entries k no_entry) (omega arith)) tt)
row_from-Fits u dp entries capacity (suc n) (suc i) =
    subst
      (λ k.
        Fits entries k (
          get_or (map (λ (r : ℕ × Option ℕ). r.1) (row_from u dp entries (suc capacity) n)) i none))
      (omega arith) (row_from-Fits u dp entries (suc capacity) n i)

row-Fits :
    (u : Utilities) (dp : List ℕ) (entries : List Entry) (n i : ℕ)
    → Fits entries i (get_or (map (λ (r : ℕ × Option ℕ). r.1) (row_from u dp entries 0 n)) i none)
row-Fits u dp entries n i =
    let pick = get_or (map (λ (r : ℕ × Option ℕ). r.1) (row_from u dp entries 0 n)) i none in
    let same : 0 + i ≡ i = omega arith in
    subst (λ k. Fits entries k pick) same (row_from-Fits u dp entries 0 n i)

-- Each entry of a row covers its cost, and each pick fits its capacity.
unfoldable pub Sound : ℕ → NodeMap Choice → (ℕ × List Entry) × List (Option ℕ) → Type 0
Sound q forced ((node, entries), picks) =
    All (Covers q (find forced node)) entries × ((i : ℕ) → Fits entries i (get_or picks i none))

abbrev ItemCovers : ℕ → NodeMap Choice → ℕ × List Entry → Type 0
ItemCovers q forced (node, entries) = All (Covers q (find forced node)) entries

pub items_of-Covers :
    (u : Utilities) (q : ℕ) (candidates : List Candidate) (forced : NodeMap Choice)
    → 0 < q
    → All (ItemCovers q forced) (items_of u q candidates forced)
unfolding items_of
items_of-Covers u q [] forced h = tt
items_of-Covers u q (c ∷ candidates) forced h = elim (List-cases c.options) [
  | inl e ↦ rw e (items_of-Covers u q candidates forced h)
  | inr (option, options, e) ↦ rw e (
    entries_from-Covers u q (find forced c.node) c.options h,
    items_of-Covers u q candidates forced h,
  )
]

pub table_rows-Sound :
    (u : Utilities) (buckets q : ℕ) (forced : NodeMap Choice) (dp : List ℕ)
    (items : List (ℕ × List Entry)) (back : List ((ℕ × List Entry) × List (Option ℕ)))
    → All (ItemCovers q forced) items
    → All (Sound q forced) back
    → All (Sound q forced) (table_rows u buckets dp items back).1
unfolding table_rows Sound
table_rows-Sound u buckets q forced dp [] back h b = b
table_rows-Sound u buckets q forced dp ((node, entries) ∷ items) back h b =
    table_rows-Sound u buckets q forced
      (map (λ (r : ℕ × Option ℕ). r.0) (row_from u dp entries 0 (suc buckets))) items
      (((node, entries), map (λ (r : ℕ × Option ℕ). r.1) (row_from u dp entries 0 (suc buckets)))
        ∷ back)
      h.1 ((h.0, row-Fits u dp entries (suc buckets)), b)
