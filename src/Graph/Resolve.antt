-- ===== src/Graph/Resolve.antt =====
-- src/graph.rs: `supersede`, `contradict`, `settle` and `mark_orphaned_evidence`.
use subnext.Prelude.{
  ℕ, Bool, true, false, not, ◌&&◌, Option, none, some, List, [], ◌∷◌, ◌++◌, if◌then◌else◌,
}
use subnext.Prelude.Bytes.{bytes_eq}
use subnext.Prelude.Dict
use subnext.Nodes.{
  NodeMeta, Edge, contradicts, supersedes, is_dependency, is_superseded, is_live, status_eq,
  kind_eq, evidence, fresh, superseded, contradicted,
}
use subnext.Graph.State.{MemoryGraph, node_at, set_node, in_at, bump, add_edge, set_status}
use subnext.Graph.Cascade.{invalidate}

-- `list.contains(&text)`
unfoldable pub has_text : List ℕ → List (List ℕ) → Bool
has_text t [] = false
has_text t (s ∷ ss) = if bytes_eq s t then true else has_text t ss

-- `list.retain(|c| *c != text)`
unfoldable pub drop_text : List ℕ → List (List ℕ) → List (List ℕ)
drop_text t [] = []
drop_text t (s ∷ ss) = let rest = drop_text t ss in if bytes_eq s t then rest else s ∷ rest

abbrev pub push_text : List ℕ → List (List ℕ) → List (List ℕ)
push_text t l = if has_text t l then l else l ++ (t ∷ [])

-- `self.nodes[i].meta = …`
abbrev pub set_meta : MemoryGraph → ℕ → NodeMeta → MemoryGraph
set_meta g i m = set_node g i (record (node_at g i) { meta = m })

abbrev pub meta_at : MemoryGraph → ℕ → NodeMeta
meta_at g i = (node_at g i).meta

-- Is some node in the list of ids live?
unfoldable pub any_live : MemoryGraph → List (List ℕ) → Bool
any_live g [] = false
any_live g (id ∷ ids) = elim (Dict.get g.by_id id) [
  | none ↦ any_live g ids
  | some other ↦ if is_live (node_at g other).status then true else any_live g ids
]

unfoldable pub settle : MemoryGraph → ℕ → MemoryGraph
unfolding any_live
settle g idx =
    if not (status_eq (node_at g idx).status contradicted)
    then g
    else if any_live g (meta_at g idx).contradicts
    then g
    else set_status g idx fresh

-- Is one of the dependents of these edges not superseded?
unfoldable pub any_dependent : MemoryGraph → List Edge → Bool
any_dependent g [] = false
any_dependent g (e ∷ es) =
    if is_dependency e.kind && not (is_superseded (node_at g e.src).status)
    then true
    else any_dependent g es

-- The body of the loop of `mark_orphaned_evidence`, at the evidence node `dep`.
unfoldable pub orphan_one : MemoryGraph → Option (List ℕ) → ℕ → MemoryGraph
unfolding any_dependent
orphan_one g corrected dep =
    if not (kind_eq (node_at g dep).kind evidence)
    then g
    else let g' =
        set_meta g dep
          (record (meta_at g dep) { superseded_source = not (any_dependent g (in_at g dep)) }) in
      elim corrected [
        | none ↦ g'
        | some pointer ↦ set_meta g' dep (record (meta_at g' dep) {
          corrected_by = push_text pointer (meta_at g' dep).corrected_by;
        })
      ]

unfoldable pub orphan_each : MemoryGraph → Option (List ℕ) → List (List ℕ) → MemoryGraph
orphan_each g corrected [] = g
orphan_each g corrected (dep ∷ deps) =
    orphan_each
      (elim (Dict.get g.by_id dep) [ none ↦ g | some dep_idx ↦ orphan_one g corrected dep_idx ])
      corrected deps

unfoldable pub mark_orphaned_evidence : MemoryGraph → ℕ → MemoryGraph
unfolding orphan_each
mark_orphaned_evidence g node =
    orphan_each g (meta_at g node).superseded_by (node_at g node).dependencies

-- The marks that `supersede` writes on the two nodes.
unfoldable pub mark_superseded : MemoryGraph → ℕ → ℕ → MemoryGraph
mark_superseded g old new =
    let old_id = (node_at g old).id in
    let new_id = (node_at g new).id in
    let g1 = set_meta g old (record (meta_at g old) { superseded_by = some new_id }) in
    let g2 =
      set_meta g1 new
        (record (meta_at g1 new) { supersedes = (meta_at g1 new).supersedes ++ (old_id ∷ []) }) in
    let g3 =
      set_meta g2 new
        (record (meta_at g2 new) { contradicts = drop_text old_id (meta_at g2 new).contradicts }) in
    set_meta g3 old
      (record (meta_at g3 old) { contradicts = drop_text new_id (meta_at g3 old).contradicts })

unfoldable pub supersede : MemoryGraph → ℕ → ℕ → MemoryGraph
supersede g old new =
    let linked = add_edge g new old supersedes in
    let dead = set_status linked old superseded in
    let marked = mark_superseded dead old new in
    let settled = settle marked new in
    let spread = (invalidate settled old false).0 in bump (mark_orphaned_evidence spread old)

-- The body of the loop of `contradict`.
unfoldable pub dispute : MemoryGraph → ℕ → List ℕ → MemoryGraph
dispute g src other =
    let marked =
      set_meta g src
        (record (meta_at g src) { contradicts = push_text other (meta_at g src).contradicts }) in
    if status_eq (node_at marked src).status fresh
    then set_status marked src contradicted
    else marked

unfoldable pub contradict : MemoryGraph → ℕ → ℕ → MemoryGraph
contradict g a b =
    let linked = add_edge (add_edge g a b contradicts) b a contradicts in
    let a_id = (node_at linked a).id in
    let b_id = (node_at linked b).id in dispute (dispute linked a b_id) b a_id
