-- ===== src/Graph/Audit.antt =====
-- src/graph.rs: `explain`, the walk from a node down its dependencies to the evidence.
use subnext.Prelude.{
  ◌≡◌, refl, ℕ, zero, suc, ◌+◌, ◌≤◌, ◌<◌, Bool, true, false, not, ◌&&◌, ◌||◌, Option, none, some,
  List, [], ◌∷◌, ◌++◌, length, length-append, leb, if◌then◌else◌, arith, Bool-cases, List-cases,
  inl, inr, map, length-map,
}
use subnext.Nodes.{Edge, is_dependency, is_empty, kind_eq, evidence}
use subnext.Graph.State.{MemoryGraph, node_at, has, out_at}
use subnext.Graph.Resolve.{push_text}
use subnext.Graph.Cascade.{edge_total}
use subnext.Graph.Ends.{unseen, unseen-first, unseen-nil}

pub record ExplainPath : Type 0 where
  pub root : ℕ
  pub nodes : List ℕ
  pub edges : List Edge
  pub spans : List (List ℕ)
  pub complete : Bool
  pub truncated_at : List ℕ
  pub depths : List (ℕ × ℕ)

-- The variables of the loop.
pub record Walk : Type 0 where
  pub path : ExplainPath
  pub seen : List ℕ
  pub queue : List (ℕ × ℕ)
  pub reached_evidence : Bool

unfoldable pub dependency_edges : List Edge → List Edge
dependency_edges [] = []
dependency_edges (e ∷ es) =
    let rest = dependency_edges es in if is_dependency e.kind then e ∷ rest else rest

-- `for span in &node.source_spans { if !path.spans.contains(span) { … } }`
unfoldable add_spans : List (List ℕ) → List (List ℕ) → List (List ℕ)
add_spans known [] = known
add_spans known (s ∷ ss) = add_spans (push_text s known) ss

-- What a round writes for a node that is seen for the first time, up to the depth test.
unfoldable pub record_node : MemoryGraph → Walk → ℕ → ℕ → Walk
unfolding add_spans
record_node g w current depth =
    let node = node_at g current in
    record w {
      path = record w.path {
        nodes = w.path.nodes ++ (current ∷ []);
        depths = w.path.depths ++ ((current, depth) ∷ []);
        spans = add_spans w.path.spans node.source_spans;
      };
      reached_evidence =
          w.reached_evidence || (kind_eq node.kind evidence || not (is_empty node.source_spans));
    }

unfoldable pub descend : MemoryGraph → ℕ → Walk → ℕ → ℕ → Walk
unfolding dependency_edges
descend g max_depth w current depth =
    if leb max_depth depth
    then (if is_empty (node_at g current).dependencies then w else record w {
      path = record w.path {
        complete = false;
        truncated_at = w.path.truncated_at ++ (current ∷ []);
      };
    })
    else let edges = dependency_edges (out_at g current) in
      record w {
        path = record w.path { edges = w.path.edges ++ edges };
        queue = w.queue ++ map (λ e. (e.dst, depth + 1)) edges;
      }

unfoldable pub step : MemoryGraph → ℕ → Walk → ℕ → ℕ → List (ℕ × ℕ) → Walk
unfolding record_node descend
step g max_depth w current depth rest =
    if has current w.seen
    then record w { queue = rest }
    else descend g max_depth
        (record_node g (record w { seen = current ∷ w.seen; queue = rest }) current depth) current
        depth

unfoldable pub walk : ℕ → MemoryGraph → ℕ → Walk → Walk
walk zero g max_depth w = w
walk (suc fuel) g max_depth w = elim w.queue [
  | [] ↦ w
  | (current, depth) ∷ rest ↦ walk fuel g max_depth (step g max_depth w current depth rest)
]

abbrev depth_or : Option ℕ → ℕ → ℕ
depth_or none default = default
depth_or (some depth) default = depth

abbrev first_walk : ℕ → Walk
first_walk root = record {
  path = record {
    root = root;
    nodes = [];
    edges = [];
    spans = [];
    complete = true;
    truncated_at = [];
    depths = [];
  };
  seen = [];
  queue = (root, 0) ∷ [];
  reached_evidence = false;
}

-- The walk of `explain`, with a round for the root and for each edge.
unfoldable pub explain_walk : MemoryGraph → ℕ → Option ℕ → Walk
explain_walk g root max_depth =
    walk (1 + edge_total g.out_edges) g (depth_or max_depth g.max_depth) (first_walk root)

unfoldable pub explain : MemoryGraph → ℕ → Option ℕ → ExplainPath
explain g root max_depth =
    let w = explain_walk g root max_depth in
    record w.path { complete = w.path.complete && w.reached_evidence }

length-dependency_edges : (es : List Edge) → length (dependency_edges es) ≤ length es
unfolding dependency_edges
length-dependency_edges [] = omega arith
length-dependency_edges (e ∷ es) = ground (arith, length-dependency_edges es)

abbrev potential : MemoryGraph → Walk → ℕ
potential g w = length w.queue + unseen 0 w.seen g.out_edges

descend-queue :
    (g : MemoryGraph) (max_depth : ℕ) (w : Walk) (c depth : ℕ)
    → length (descend g max_depth w c depth).queue ≤ length w.queue + length (out_at g c)
unfolding descend
descend-queue g max_depth w c depth =
    let edges = dependency_edges (out_at g c) in
    ground (
      arith,
      length-append w.queue (map (λ e. (e.dst, depth + 1)) edges),
      length-map {B = ℕ × ℕ} (λ e. (e.dst, depth + 1)) edges,
      length-dependency_edges (out_at g c),
    )

descend-seen :
    (g : MemoryGraph) (max_depth : ℕ) (w : Walk) (c depth : ℕ)
    → (descend g max_depth w c depth).seen ≡ w.seen
unfolding descend
descend-seen g max_depth w c depth = ground arith

potential-step :
    (g : MemoryGraph) (max_depth : ℕ) (w : Walk) (c depth : ℕ) (rest : List (ℕ × ℕ))
    → w.queue ≡ (c, depth) ∷ rest
    → potential g (step g max_depth w c depth rest) < potential g w
unfolding step record_node
potential-step g max_depth w c depth rest q = elim (Bool-cases (has c w.seen)) [
  | inl seen ↦ rw (seen, q) (omega arith)
  | inr new ↦
      let w' = record_node g (record w { seen = c ∷ w.seen; queue = rest }) c depth in
      rw (new, q, descend-seen g max_depth w' c depth)
        (omega (arith, descend-queue g max_depth w' c depth, unseen-first c w.seen g.out_edges new))
]

walk-empty :
    (fuel : ℕ) (g : MemoryGraph) (max_depth : ℕ) (w : Walk)
    → potential g w ≤ fuel
    → (walk fuel g max_depth w).queue ≡ []
unfolding walk step
walk-empty zero g max_depth w h = elim (List-cases w.queue) [
  | inl e ↦ e
  | inr (x, rest, e) ↦ absurd (omega (arith, potential-step g max_depth w x.0 x.1 rest e))
]
walk-empty (suc fuel) g max_depth w h = elim (List-cases w.queue) [
  | inl e ↦ rw e refl
  | inr (x, rest, e) ↦ rw e (
      walk-empty fuel g max_depth (step g max_depth w x.0 x.1 rest)
        (omega (arith, potential-step g max_depth w x.0 x.1 rest e)))
]

-- The walk of `explain` runs until its queue is empty, from any root of any graph, cycles included:
-- the number of edges and one more round is enough fuel.
pub explain_walk-empty :
    (g : MemoryGraph) (root : ℕ) (max_depth : Option ℕ) → (explain_walk g root max_depth).queue ≡ []
unfolding explain_walk
explain_walk-empty g root max_depth =
    walk-empty _ g (depth_or max_depth g.max_depth) (first_walk root)
      (omega (arith, unseen-nil 0 g.out_edges))
