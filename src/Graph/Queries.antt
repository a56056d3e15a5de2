-- ===== src/Graph/Queries.antt =====
-- src/graph.rs: the reads of the graph, and what the reads by key return in the graphs that the
-- operations lead to.
use subnext.Prelude.{
  ◌≡◌, refl, sym, ◌∙◌, ℕ, suc, Bool, true, false, not, ◌&&◌, ◌||◌, Option, none, some, List, [],
  ◌∷◌, ◌++◌, length, leb, ltb, compare, Ordering, ◌==◌, if◌then◌else◌, arith,
}
use subnext.Prelude.Bytes.{sort_by, insert_by}
use subnext.Nodes.{
  Node, Kind, Edge, EdgeType, all_kinds, kind_eq, edge_index, is_superseded, status_eq, fresh,
  stale,
}
use subnext.Graph.State.{MemoryGraph, node_at, has, listed, out_at, in_at}
use subnext.Graph.Cascade.{edge_total}
use subnext.Graph.Indexed.{key_is}
use subnext.Graph.Reach.{Reaches, Reaches-IsIndexed}

abbrev edge_count : MemoryGraph → ℕ
edge_count g = edge_total g.out_edges

-- `kind.is_none_or(|k| e.kind == k)`
abbrev of_kind : Option EdgeType → Edge → Bool
of_kind none e = true
of_kind (some k) e = edge_index e.kind == edge_index k

unfoldable select : Option EdgeType → (Edge → ℕ) → List Edge → List ℕ
select kind end [] = []
select kind end (e ∷ es) =
    let rest = select kind end es in if of_kind kind e then end e ∷ rest else rest

unfoldable neighbors : MemoryGraph → ℕ → Option EdgeType → Bool → List ℕ
unfolding select
neighbors g idx kind outgoing =
    if outgoing
    then select kind (λ e. e.dst) (out_at g idx)
    else select kind (λ e. e.src) (in_at g idx)

-- `iter().filter(…)` on a list of indices
unfoldable keep : (ℕ → Bool) → List ℕ → List ℕ
keep test [] = []
keep test (i ∷ is) = let rest = keep test is in if test i then i ∷ rest else rest

-- `sort_by_key(|&i| self.nodes[i].timestamp)`
abbrev by_time : MemoryGraph → ℕ → ℕ → Ordering
by_time g i j = compare (node_at g i).timestamp (node_at g j).timestamp

unfoldable pub by_key : MemoryGraph → List ℕ → Bool → List ℕ
unfolding keep
by_key g key fresh_only =
    sort_by (by_time g)
      (keep (λ i. not fresh_only || not (is_superseded (node_at g i).status)) (listed g.by_key key))

unfoldable pub live_by_key_sorted : MemoryGraph → List ℕ → List ℕ
live_by_key_sorted g key = sort_by (by_time g) (listed g.live_by_key key)

-- `iter().enumerate().filter(…).map(|(i, _)| i)`, from index `k` on
unfoldable indices : (Node → Bool) → ℕ → List Node → List ℕ
indices test k [] = []
indices test k (n ∷ ns) = let rest = indices test (suc k) ns in if test n then k ∷ rest else rest

unfoldable pub by_kind : MemoryGraph → Kind → Bool → List ℕ
unfolding indices
by_kind g kind fresh_only =
    indices (λ n. kind_eq n.kind kind && (not fresh_only || status_eq n.status fresh)) 0 g.nodes

unfoldable pub active : MemoryGraph → List ℕ
unfolding indices
active g = indices (λ n. not (is_superseded n.status)) 0 g.nodes

has-insert_by :
    (cmp : ℕ → ℕ → Ordering) (x i : ℕ) (l : List ℕ)
    → has i (insert_by cmp x l) ≡ (if x == i then true else has i l)
unfolding insert_by has
has-insert_by cmp x i [] = refl
has-insert_by cmp x i (y ∷ l) = ground (arith, has-insert_by cmp x i l)

has-sort_by : (cmp : ℕ → ℕ → Ordering) (i : ℕ) (l : List ℕ) → has i (sort_by cmp l) ≡ has i l
unfolding sort_by has
has-sort_by cmp i [] = refl
has-sort_by cmp i (x ∷ l) =
    ground (arith, has-insert_by cmp x i (sort_by cmp l), has-sort_by cmp i l)

has-keep : (test : ℕ → Bool) (i : ℕ) (l : List ℕ) → has i (keep test l) ≡ (has i l && test i)
unfolding keep has
has-keep test i [] = refl
has-keep test i (x ∷ l) = ground (arith, has-keep test i l)

-- In every graph that the operations lead to, where no upserted node is superseded, the search by key returns the nodes with the key, with
-- `fresh_only` those of them that are not superseded, and the sorted live list of the key has the same
-- nodes as that search.
pub has-by_key :
    (g : MemoryGraph) (key : List ℕ) (i : ℕ)
    → Reaches g
    → (has i (by_key g key false) ≡ key_is (node_at g i).key key)
      × (has i (by_key g key true)
          ≡ (key_is (node_at g i).key key && not (is_superseded (node_at g i).status)))
      × (has i (live_by_key_sorted g key) ≡ has i (by_key g key true))
unfolding live_by_key_sorted by_key
has-by_key g key i reached =
    let x = Reaches-IsIndexed reached in
    let test : Bool → ℕ → Bool =
      λ fresh_only j. not fresh_only || not (is_superseded (node_at g j).status) in
    let all_nodes = keep (test false) (listed g.by_key key) in
    let live_nodes = keep (test true) (listed g.by_key key) in
    let sorted_all = has-sort_by (by_time g) i all_nodes in
    let sorted_live = has-sort_by (by_time g) i live_nodes in
    let kept_all = has-keep (test false) i (listed g.by_key key) in
    let kept_live = has-keep (test true) i (listed g.by_key key) in
    let live : has i (by_key g key true)
        ≡ (key_is (node_at g i).key key && not (is_superseded (node_at g i).status)) =
      sorted_live ∙ (kept_live ∙ ground (arith, x.keyed key i)) in
    (
      sorted_all ∙ (kept_all ∙ ground (arith, x.keyed key i)),
      live,
      has-sort_by (by_time g) i (listed g.live_by_key key) ∙ (x.live key i ∙ sym live),
    )

pub record GraphStats : Type 0 where
  pub nodes : ℕ
  pub edges : ℕ
  pub by_kinds : List (Kind × ℕ)
  pub stales : ℕ
  pub supersededs : ℕ
  pub version : ℕ
  pub pending_invalidation : ℕ

unfoldable count : (Node → Bool) → List Node → ℕ
count test [] = 0
count test (n ∷ ns) = if test n then suc (count test ns) else count test ns

unfoldable kind_counts : List Kind → List Node → List (Kind × ℕ)
unfolding count
kind_counts [] ns = []
kind_counts (k ∷ ks) ns =
    let total = count (λ n. kind_eq n.kind k) ns in
    let rest = kind_counts ks ns in if ltb 0 total then (k, total) ∷ rest else rest

unfoldable stats : MemoryGraph → GraphStats
unfolding kind_counts
stats g = record {
  nodes = length g.nodes;
  edges = edge_count g;
  by_kinds = kind_counts all_kinds g.nodes;
  stales = count (λ n. status_eq n.status stale) g.nodes;
  supersededs = count (λ n. is_superseded n.status) g.nodes;
  version = g.version;
  pending_invalidation = length g.pending_invalidation;
}

-- The nodes invalidated at or after `version`, as a list for the hash set.
unfoldable invalidated_since : List (ℕ × List ℕ) → ℕ → List ℕ
invalidated_since [] version = []
invalidated_since ((v, marked) ∷ rest) version =
    let later = invalidated_since rest version in if leb version v then marked ++ later else later
