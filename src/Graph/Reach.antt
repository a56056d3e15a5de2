-- ===== src/Graph/Reach.antt =====
-- src/graph.rs: the graphs that the operations lead to, and the invariant of the indexes in them.
use subnext.Prelude.{◌≡◌, refl, ℕ, Bool, false, List}
use subnext.Prelude.Dict
use subnext.Ids.{Clock}
use subnext.Nodes.{Node, is_superseded, EdgeType}
use subnext.Graph.State.{MemoryGraph, new, add_edge, has}
use subnext.Graph.Cascade.{invalidate, drain_pending, revalidate}
use subnext.Graph.Resolve.{supersede, contradict}
use subnext.Graph.Upsert.{ok, insert_restored, upsert, restore_edge}
use subnext.Graph.Indexed.{IsIndexed}
use subnext.Graph.Writes.{insert_restored-IsIndexed}
use subnext.Graph.Kept.{
  add_edge-IsIndexed, invalidate-IsIndexed, drain_pending-IsIndexed, revalidate-IsIndexed,
}
use subnext.Graph.Operations.{
  supersede-IsIndexed, contradict-IsIndexed, restore_edge-IsIndexed, upsert-IsIndexed,
}

-- The graphs that the public operations lead to from the empty one. A node that is upserted is not
-- superseded.
pub data Reaches : MemoryGraph → Type 0 where
  begins : Reaches new
  upserts :
      {g : MemoryGraph} (node : Node) (has_span : List ℕ → Bool) (clock : Clock)
      (r : MemoryGraph × ℕ × Clock)
      → Reaches g
      → is_superseded node.status ≡ false
      → upsert g node has_span clock ≡ ok r
      → Reaches r.0
  restores : {g : MemoryGraph} (node : Node) → Reaches g → Reaches (insert_restored g node).0
  restores_edge :
      {g : MemoryGraph} (src dst : List ℕ) (kind : EdgeType)
      → Reaches g
      → Reaches (restore_edge g src dst kind)
  links :
      {g : MemoryGraph} (src dst : ℕ) (kind : EdgeType)
      → Reaches g
      → Reaches (add_edge g src dst kind)
  supersedes_one : {g : MemoryGraph} (old new : ℕ) → Reaches g → Reaches (supersede g old new)
  contradicts_one : {g : MemoryGraph} (a b : ℕ) → Reaches g → Reaches (contradict g a b)
  invalidates :
      {g : MemoryGraph} (node : ℕ) (include_self : Bool)
      → Reaches g
      → Reaches (invalidate g node include_self).0
  drains : {g : MemoryGraph} (limit : ℕ) → Reaches g → Reaches (drain_pending g limit).0
  revalidates :
      {g : MemoryGraph} (idx : ℕ) (clock : Clock) → Reaches g → Reaches (revalidate g idx clock).0

new-IsIndexed : IsIndexed new
unfolding has Dict.get
new-IsIndexed = record { keyed = λ k i. refl; live = λ k i. refl; address = λ k i h. cc }

-- In every graph that the operations lead to, where no upserted node is superseded, `by_key` lists exactly the nodes with the key,
-- `live_by_key` exactly those of them that are not superseded, and `by_id` leads to a node in range
-- with the id.
pub Reaches-IsIndexed : {g : MemoryGraph} → Reaches g → IsIndexed g
Reaches-IsIndexed begins = new-IsIndexed
Reaches-IsIndexed (upserts {g} node has_span clock r before alive h) =
    upsert-IsIndexed g node has_span clock r h alive (Reaches-IsIndexed before)
Reaches-IsIndexed (restores {g} node before) =
    insert_restored-IsIndexed g node (Reaches-IsIndexed before)
Reaches-IsIndexed (restores_edge {g} src dst kind before) =
    restore_edge-IsIndexed g src dst kind (Reaches-IsIndexed before)
Reaches-IsIndexed (links {g} src dst kind before) =
    add_edge-IsIndexed g src dst kind (Reaches-IsIndexed before)
Reaches-IsIndexed (supersedes_one {g} old new before) =
    supersede-IsIndexed g old new (Reaches-IsIndexed before)
Reaches-IsIndexed (contradicts_one {g} a b before) =
    contradict-IsIndexed g a b (Reaches-IsIndexed before)
Reaches-IsIndexed (invalidates {g} node include_self before) =
    invalidate-IsIndexed g node include_self (Reaches-IsIndexed before)
Reaches-IsIndexed (drains {g} limit before) =
    drain_pending-IsIndexed g limit (Reaches-IsIndexed before)
Reaches-IsIndexed (revalidates {g} idx clock before) =
    revalidate-IsIndexed g idx clock (Reaches-IsIndexed before)
