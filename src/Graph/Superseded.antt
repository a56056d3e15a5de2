-- ===== src/Graph/Superseded.antt =====
-- src/graph.rs: what `supersede` does to the node that it supersedes.
use subnext.Prelude.{
  ◌≡◌, refl, ◌∙◌, ℕ, ◌<◌, Bool, true, false, not, Option, none, some, List, [], ◌∷◌, length,
  if◌then◌else◌, arith,
}
use subnext.Prelude.Dict
use subnext.Nodes.{Node, NodeMeta, superseded, fresh, supersedes, kind_eq, evidence}
use subnext.Graph.State.{MemoryGraph, node_at, blank, add_edge, set_status, has, listed}
use subnext.Graph.Cascade.{invalidate}
use subnext.Graph.Resolve.{
  set_meta, meta_at, settle, orphan_one, orphan_each, mark_orphaned_evidence, mark_superseded,
  supersede,
}
use subnext.Graph.Reads.{get_or-set_same, status-set_status}
use subnext.Graph.Spread.{status-invalidate}
use subnext.Graph.Indexed.{Keeps-add_edge}
use subnext.Graph.Reach.{Reaches, Reaches-IsIndexed, supersedes_one}

-- A node is superseded.
record IsDead (i : ℕ) (g : MemoryGraph) : Type 0 where
  is : (node_at g i).status ≡ superseded

module _ (i : ℕ) where
  set_meta-IsDead :
      (g : MemoryGraph) (c : ℕ) (m : NodeMeta) → IsDead i g → IsDead i (set_meta g c m)
  set_meta-IsDead g c m x = record {
    is =
        get_or-set_same (λ (n : Node). n.status) g.nodes c i (record (node_at g c) { meta = m })
          blank refl
        ∙ x.is;
  }

  if-IsDead :
      (b : Bool) (g g' : MemoryGraph) → IsDead i g → IsDead i g' → IsDead i (if b then g else g')
  if-IsDead true g g' x y = x
  if-IsDead false g g' x y = y

  orphan_one-IsDead :
      (g : MemoryGraph) (corrected : Option (List ℕ)) (dep : ℕ)
      → IsDead i g
      → IsDead i (orphan_one g corrected dep)
  unfolding orphan_one
  orphan_one-IsDead g none dep x =
      if-IsDead (not (kind_eq (node_at g dep).kind evidence)) g _ x (set_meta-IsDead g dep _ x)
  orphan_one-IsDead g (some pointer) dep x =
      if-IsDead (not (kind_eq (node_at g dep).kind evidence)) g _ x
        (set_meta-IsDead _ dep _ (set_meta-IsDead g dep _ x))

  orphan_each-IsDead :
      (g : MemoryGraph) (corrected : Option (List ℕ)) (deps : List (List ℕ))
      → IsDead i g
      → IsDead i (orphan_each g corrected deps)
  unfolding orphan_each
  orphan_each-IsDead g corrected [] x = x
  orphan_each-IsDead g corrected (dep ∷ deps) x =
      orphan_each-IsDead
        (elim (Dict.get g.by_id dep) [ none ↦ g | some dep_idx ↦ orphan_one g corrected dep_idx ])
        corrected deps (go (Dict.get g.by_id dep))
    where
      go :
          (o : Option ℕ)
          → let g' : MemoryGraph = elim o [
            | none ↦ g
            | some dep_idx ↦ orphan_one g corrected dep_idx
          ] in
            IsDead i g'
      go none = x
      go (some dep_idx) = orphan_one-IsDead g corrected dep_idx x

  mark_orphaned_evidence-IsDead :
      (g : MemoryGraph) (node : ℕ) → IsDead i g → IsDead i (mark_orphaned_evidence g node)
  unfolding mark_orphaned_evidence
  mark_orphaned_evidence-IsDead g node x =
      orphan_each-IsDead g (meta_at g node).superseded_by (node_at g node).dependencies x

  mark_superseded-IsDead :
      (g : MemoryGraph) (old new : ℕ) → IsDead i g → IsDead i (mark_superseded g old new)
  unfolding mark_superseded
  mark_superseded-IsDead g old new x =
      set_meta-IsDead _ old _
        (set_meta-IsDead _ new _ (set_meta-IsDead _ new _ (set_meta-IsDead g old _ x)))

  -- `settle` writes a contradicted node only.
  settle-IsDead : (g : MemoryGraph) (idx : ℕ) → IsDead i g → IsDead i (settle g idx)
  unfolding settle
  settle-IsDead g idx x = record { is = ground (arith, x.is, status-set_status g idx i fresh) }

  -- The cascade marks no superseded node.
  invalidate-IsDead :
      (g : MemoryGraph) (node : ℕ) → IsDead i g → IsDead i (invalidate g node false).0
  invalidate-IsDead g node x =
      let (after, skipped, bound) = status-invalidate g node false i in
      record { is = ground (arith, x.is, after, skipped) }

supersede-IsDead :
    (g : MemoryGraph) (old new : ℕ) → old < length g.nodes → IsDead old (supersede g old new)
unfolding supersede
supersede-IsDead g old new h =
    let linked = add_edge g new old supersedes in
    let k = Keeps-add_edge g new old supersedes in
    let dead : IsDead old (set_status linked old superseded) = record {
      is = ground (arith, status-set_status linked old old superseded, k.size);
    } in
    let y = mark_orphaned_evidence-IsDead old _ old (
      invalidate-IsDead old _ old
        (settle-IsDead old _ new (mark_superseded-IsDead old _ old new dead))) in
    record { is = y.is }

-- In every graph that the operations lead to, where no upserted node is superseded, superseding a node leaves it superseded, even where
-- `new` is the node itself, and takes it off the live list of every key.
pub has-supersede :
    (g : MemoryGraph) (old new : ℕ) (key : List ℕ)
    → Reaches g
    → old < length g.nodes
    → ((node_at (supersede g old new) old).status ≡ superseded)
      × (has old (listed (supersede g old new).live_by_key key) ≡ false)
has-supersede g old new key reached below =
    let s = (supersede-IsDead g old new below).is in
    let x = Reaches-IsIndexed (supersedes_one old new reached) in
    (s, ground (arith, x.live key old, s))
