-- ===== src/Graph/State.antt =====
-- src/graph.rs: the state of the memory graph, its edges and its two key indexes. A read with an
-- index out of range, where the program would panic, gives the blank node or no edges; the theorems
-- say where indices are in range.
use subnext.Prelude.{
  ℕ, ◌+◌, ◌%◌, Bool, true, false, Option, none, some, List, [], ◌∷◌, ◌++◌, get_or, set, ◌==◌,
  if◌then◌else◌,
}
use subnext.Prelude.Bytes.{bytes_eq}
use subnext.Prelude.Dict
use subnext.Prelude.Dict.{Dict}
use subnext.Ids.{u64_mod}
use subnext.Nodes.{
  Node, Edge, EdgeType, Status, fresh, is_superseded, edge_eq, evidence, observed, default_meta,
  default_cache,
}

pub record MemoryGraph : Type 0 where
  pub nodes : List Node
  pub by_id : Dict ℕ
  pub out_edges : List (List Edge)
  pub in_edges : List (List Edge)
  pub by_key : Dict (List ℕ)
  pub live_by_key : Dict (List ℕ)
  pub max_cascade : ℕ
  pub max_depth : ℕ
  pub version : ℕ
  pub invalidated_since : List (ℕ × List ℕ)
  pub pending_invalidation : List ℕ

abbrev pub new : MemoryGraph
new = record {
  nodes = [];
  by_id = [];
  out_edges = [];
  in_edges = [];
  by_key = [];
  live_by_key = [];
  max_cascade = 64;
  max_depth = 8;
  version = 0;
  invalidated_since = [];
  pending_invalidation = [];
}

abbrev pub blank : Node
blank = record {
  id = [];
  kind = evidence;
  origin = observed;
  value = [];
  source_spans = [];
  dependencies = [];
  confidence = 0;
  timestamp = 0;
  status = fresh;
  key = none;
  level_cache = default_cache;
  meta = default_meta;
  reads = 0;
  admits = 0;
}

abbrev pub node_at : MemoryGraph → ℕ → Node
node_at g i = get_or g.nodes i blank

abbrev pub set_node : MemoryGraph → ℕ → Node → MemoryGraph
set_node g i n = record g { nodes = set g.nodes i n }

abbrev pub out_at : MemoryGraph → ℕ → List Edge
out_at g i = get_or g.out_edges i []

abbrev pub in_at : MemoryGraph → ℕ → List Edge
in_at g i = get_or g.in_edges i []

abbrev pub bump : MemoryGraph → MemoryGraph
bump g = record g { version = (g.version + 1) % u64_mod }

-- `list.contains(&i)`
unfoldable pub has : ℕ → List ℕ → Bool
has i [] = false
has i (j ∷ js) = if j == i then true else has i js

-- `list.retain(|&j| j != i)`
unfoldable pub remove : ℕ → List ℕ → List ℕ
remove i [] = []
remove i (j ∷ js) = let rest = remove i js in if j == i then rest else j ∷ rest

-- `if !list.contains(&i) { list.push(i) }`
abbrev pub push_new : ℕ → List ℕ → List ℕ
push_new i l = if has i l then l else l ++ (i ∷ [])

-- `map.get(key).map(Vec::as_slice).unwrap_or(&[])`
abbrev pub listed : Dict (List ℕ) → List ℕ → List ℕ
listed d k = elim (Dict.get d k) [ none ↦ [] | some l ↦ l ]

-- `if let Some(list) = map.get_mut(key) { list.retain(…) }`
unfoldable pub retain_other : Dict (List ℕ) → List ℕ → ℕ → Dict (List ℕ)
retain_other d k i = elim (Dict.get d k) [ none ↦ d | some l ↦ Dict.insert d k (remove i l) ]

unfoldable pub contains_edge : Edge → List Edge → Bool
contains_edge e [] = false
contains_edge e (f ∷ fs) = if edge_eq f e then true else contains_edge e fs

unfoldable pub add_edge : MemoryGraph → ℕ → ℕ → EdgeType → MemoryGraph
unfolding contains_edge
add_edge g src dst kind =
    let edge : Edge = record { src = src; dst = dst; kind = kind } in
    if contains_edge edge (out_at g src)
    then g
    else bump (record g {
      out_edges = set g.out_edges src (out_at g src ++ (edge ∷ []));
      in_edges = set g.in_edges dst (in_at g dst ++ (edge ∷ []));
    })

abbrev key_eq : Option (List ℕ) → Option (List ℕ) → Bool
key_eq none none = true
key_eq none (some b) = false
key_eq (some a) none = false
key_eq (some a) (some b) = bytes_eq a b

abbrev pub same_key : Option (List ℕ) → Option (List ℕ) → Bool
same_key a b = key_eq a b

-- The write of `set_status` to `live_by_key`, where the key of the node is `key`.
unfoldable pub cross_live : Dict (List ℕ) → Option (List ℕ) → ℕ → Bool → Dict (List ℕ)
cross_live d none idx now_dead = d
cross_live d (some key) idx now_dead =
    if now_dead
    then Dict.insert d key (remove idx (listed d key))
    else Dict.insert d key (push_new idx (listed d key))

unfoldable pub set_status : MemoryGraph → ℕ → Status → MemoryGraph
unfolding cross_live
set_status g idx status =
    let node = node_at g idx in
    let g' = set_node g idx (record node { status = status }) in
    if is_superseded node.status
    then (if is_superseded status
        then g'
        else record g' { live_by_key = cross_live g.live_by_key node.key idx false })
    else (if is_superseded status
        then record g' { live_by_key = cross_live g.live_by_key node.key idx true }
        else g')

-- `by_key` after the key of node `idx` went from `old` to `new`.
unfoldable pub drop_key : Dict (List ℕ) → Option (List ℕ) → ℕ → Dict (List ℕ)
drop_key d none idx = d
drop_key d (some key) idx = retain_other d key idx

unfoldable pub push_key : Dict (List ℕ) → Option (List ℕ) → ℕ → Dict (List ℕ)
push_key d none idx = d
push_key d (some key) idx = Dict.insert d key (listed d key ++ (idx ∷ []))

unfoldable pub reindex_key : MemoryGraph → ℕ → Option (List ℕ) → Option (List ℕ) → MemoryGraph
unfolding drop_key push_key
reindex_key g idx old new =
    if same_key old new
    then g
    else record g { by_key = push_key (drop_key g.by_key old idx) new idx }
