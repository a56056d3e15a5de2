-- ===== src/Graph/Cascade.antt =====
-- src/graph.rs: `invalidate`, the bounded cascade over dependents, and `drain_pending`.
use subnext.Prelude.{
  ℕ, zero, suc, ◌+◌, min, Bool, true, ◌||◌, none, List, [], ◌∷◌, ◌++◌, length, leb, ltb,
  if◌then◌else◌,
}
use subnext.Ids.{Clock, tick}
use subnext.Nodes.{Edge, is_dependency, is_superseded, kind_eq, evidence, stale, fresh}
use subnext.Graph.State.{MemoryGraph, node_at, set_node, in_at, bump, has, set_status}

-- The nodes that depend on a node directly, each with its depth.
unfoldable pub dependents : List Edge → ℕ → List (ℕ × ℕ)
dependents [] depth = []
dependents (e ∷ es) depth =
    let rest = dependents es depth in if is_dependency e.kind then (e.src, depth) ∷ rest else rest

-- The variables of the loop of `invalidate`, with the graph that it changes.
pub record Wave : Type 0 where
  pub graph : MemoryGraph
  pub marked : List ℕ
  pub seen : List ℕ
  pub queue : List (ℕ × ℕ)

-- `set_status(current, Stale)` and the reset of the cached number, unless the node is evidence.
unfoldable pub mark_stale : MemoryGraph → ℕ → MemoryGraph
mark_stale g current =
    if kind_eq (node_at g current).kind evidence
    then g
    else let g' = set_status g current stale in
      let n = node_at g' current in
      set_node g' current (record n { level_cache = record n.level_cache { l3 = none } })

-- The body of the loop, for a node that is seen for the first time.
unfoldable pub visit : Wave → ℕ → ℕ → Wave
unfolding mark_stale dependents
visit w current depth =
    let g = w.graph in
    if leb g.max_cascade (length w.marked) || ltb g.max_depth depth
    then record w {
      graph = record g { pending_invalidation = g.pending_invalidation ++ (current ∷ []) };
    }
    else if is_superseded (node_at g current).status
    then w
    else record w {
      graph = mark_stale g current;
      marked = w.marked ++ (current ∷ []);
      queue = w.queue ++ dependents (in_at g current) (depth + 1);
    }

-- One round: pop the front of the queue.
unfoldable pub round : Wave → ℕ → ℕ → List (ℕ × ℕ) → Wave
round w current depth rest =
    if has current w.seen
    then record w { queue = rest }
    else visit (record w { seen = current ∷ w.seen; queue = rest }) current depth

unfoldable pub loop : ℕ → Wave → Wave
loop zero w = w
loop (suc fuel) w = elim w.queue [
  | [] ↦ w
  | (current, depth) ∷ rest ↦ loop fuel (round w current depth rest)
]

unfoldable pub initial_queue : MemoryGraph → ℕ → Bool → List (ℕ × ℕ)
initial_queue g node include_self =
    if include_self then (node, 0) ∷ [] else dependents (in_at g node) 1

-- Each node is expanded once at most, so the queue sees no more entries than edges beyond the first.
unfoldable pub edge_total : List (List Edge) → ℕ
edge_total [] = 0
edge_total (es ∷ rest) = length es + edge_total rest

unfoldable pub start : MemoryGraph → ℕ → Bool → Wave
unfolding initial_queue
start g node include_self = record {
  graph = g;
  marked = [];
  seen = [];
  queue = initial_queue g node include_self;
}

abbrev pub fuel_for : Wave → ℕ
fuel_for w = length w.queue + edge_total w.graph.in_edges

unfoldable pub run : MemoryGraph → ℕ → Bool → Wave
run g node include_self = let w = start g node include_self in loop (fuel_for w) w

-- `if !marked.is_empty() { … }`
unfoldable pub record_marked : MemoryGraph → List ℕ → MemoryGraph
record_marked g [] = g
record_marked g (m ∷ ms) =
    bump (record g { invalidated_since = g.invalidated_since ++ ((g.version, m ∷ ms) ∷ []) })

unfoldable pub invalidate : MemoryGraph → ℕ → Bool → MemoryGraph × List ℕ
unfolding record_marked
invalidate g node include_self =
    let w = run g node include_self in (record_marked w.graph w.marked, w.marked)

-- `drain_pending`, with the rounds that are left.
unfoldable pub drain_rounds : ℕ → MemoryGraph → List ℕ → MemoryGraph × List ℕ
drain_rounds zero g marked = (g, marked)
drain_rounds (suc n) g marked = elim g.pending_invalidation [
  | [] ↦ drain_rounds n g marked
  | idx ∷ rest ↦
      let r = invalidate (record g { pending_invalidation = rest }) idx true in
      drain_rounds n r.0 (marked ++ r.1)
]

unfoldable pub drain_pending : MemoryGraph → ℕ → MemoryGraph × List ℕ
drain_pending g limit = drain_rounds (min limit (length g.pending_invalidation)) g []

unfoldable pub revalidate : MemoryGraph → ℕ → Clock → MemoryGraph × Clock
revalidate g idx clock =
    let g' = set_status g idx fresh in
    let (clock', now) = tick clock in
    (bump (set_node g' idx (record (node_at g' idx) { timestamp = now })), clock')
