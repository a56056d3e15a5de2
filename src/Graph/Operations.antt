-- ===== src/Graph/Operations.antt =====
-- src/graph.rs: `supersede`, `contradict`, `upsert` and `restore_edge` keep the invariant of the indexes.
use subnext.Prelude.{
  ◌≡◌, sym, ap, subst, ℕ, Bool, false, not, Option, none, some, List, [], ◌∷◌, if◌then◌else◌,
  Option-cases, inl, inr,
}
use subnext.Prelude.Bytes.{bytes_eq}
use subnext.Prelude.Dict
use subnext.Ids.{Clock, tick}
use subnext.Nodes.{
  Node, NodeMeta, is_superseded, fresh, superseded, contradicted, supersedes, contradicts, EdgeType,
  Kind, kind_eq, claim, supports, derived_from, evidence, status_eq, fingerprint,
}
use subnext.Graph.State.{MemoryGraph, new, node_at, add_edge}
use subnext.Graph.Resolve.{
  set_meta, meta_at, any_live, settle, orphan_one, orphan_each, mark_orphaned_evidence,
  mark_superseded, supersede, dispute, contradict, push_text,
}
use subnext.Graph.Upsert.{
  Result, ok, err, require_grounding, link_dependency, link_dependencies, place, stamped, finish,
  upsert, restore_edge,
}
use subnext.Graph.Indexed.{IsIndexed}
use subnext.Graph.Writes.{set_status-IsIndexed, insert_new-IsIndexed}
use subnext.Graph.Replace.{replace_node-IsIndexed}
use subnext.Graph.Kept.{
  if-IsIndexed, set_meta-IsIndexed, bump-IsIndexed, add_edge-IsIndexed, invalidate-IsIndexed,
}

settle-IsIndexed : (g : MemoryGraph) (idx : ℕ) → IsIndexed g → IsIndexed (settle g idx)
unfolding settle
settle-IsIndexed g idx x =
    if-IsIndexed (not (status_eq (node_at g idx).status contradicted)) g _ x (
      if-IsIndexed (any_live g (meta_at g idx).contradicts) g _ x
        (set_status-IsIndexed g idx fresh x))

orphan_one-IsIndexed :
    (g : MemoryGraph) (corrected : Option (List ℕ)) (dep : ℕ)
    → IsIndexed g
    → IsIndexed (orphan_one g corrected dep)
unfolding orphan_one
orphan_one-IsIndexed g none dep x =
    if-IsIndexed (not (kind_eq (node_at g dep).kind evidence)) g _ x (set_meta-IsIndexed g dep _ x)
orphan_one-IsIndexed g (some pointer) dep x =
    if-IsIndexed (not (kind_eq (node_at g dep).kind evidence)) g _ x
      (set_meta-IsIndexed _ dep _ (set_meta-IsIndexed g dep _ x))

orphan_each-IsIndexed :
    (g : MemoryGraph) (corrected : Option (List ℕ)) (deps : List (List ℕ))
    → IsIndexed g
    → IsIndexed (orphan_each g corrected deps)
unfolding orphan_each
orphan_each-IsIndexed g corrected [] x = x
orphan_each-IsIndexed g corrected (dep ∷ deps) x =
    orphan_each-IsIndexed
      (elim (Dict.get g.by_id dep) [ none ↦ g | some dep_idx ↦ orphan_one g corrected dep_idx ])
      corrected deps (go (Dict.get g.by_id dep))
  where
    go :
        (o : Option ℕ)
        → let g' : MemoryGraph = elim o [
          | none ↦ g
          | some dep_idx ↦ orphan_one g corrected dep_idx
        ] in
          IsIndexed g'
    go none = x
    go (some dep_idx) = orphan_one-IsIndexed g corrected dep_idx x

mark_orphaned_evidence-IsIndexed :
    (g : MemoryGraph) (node : ℕ) → IsIndexed g → IsIndexed (mark_orphaned_evidence g node)
unfolding mark_orphaned_evidence
mark_orphaned_evidence-IsIndexed g node x =
    orphan_each-IsIndexed g (meta_at g node).superseded_by (node_at g node).dependencies x

mark_superseded-IsIndexed :
    (g : MemoryGraph) (old new : ℕ) → IsIndexed g → IsIndexed (mark_superseded g old new)
unfolding mark_superseded
mark_superseded-IsIndexed g old new x =
    set_meta-IsIndexed _ old _
      (set_meta-IsIndexed _ new _ (set_meta-IsIndexed _ new _ (set_meta-IsIndexed g old _ x)))

pub supersede-IsIndexed :
    (g : MemoryGraph) (old new : ℕ) → IsIndexed g → IsIndexed (supersede g old new)
unfolding supersede
supersede-IsIndexed g old new x = bump-IsIndexed _ (
    mark_orphaned_evidence-IsIndexed _ old (
      invalidate-IsIndexed _ old false (
        settle-IsIndexed _ new (
          mark_superseded-IsIndexed _ old new
            (set_status-IsIndexed _ old superseded (add_edge-IsIndexed g new old supersedes x))))))

dispute-IsIndexed :
    (g : MemoryGraph) (src : ℕ) (other : List ℕ) → IsIndexed g → IsIndexed (dispute g src other)
unfolding dispute
dispute-IsIndexed g src other x =
    let m : NodeMeta = record (meta_at g src) {
      contradicts = push_text other (meta_at g src).contradicts;
    } in
    let marked = set_meta-IsIndexed g src m x in
    if-IsIndexed (status_eq (node_at (set_meta g src m) src).status fresh) _ _
      (set_status-IsIndexed _ src contradicted marked) marked

pub contradict-IsIndexed : (g : MemoryGraph) (a b : ℕ) → IsIndexed g → IsIndexed (contradict g a b)
unfolding contradict
contradict-IsIndexed g a b x = dispute-IsIndexed _ b _ (
    dispute-IsIndexed _ a _
      (add_edge-IsIndexed _ b a contradicts (add_edge-IsIndexed g a b contradicts x)))

link_dependency-IsIndexed :
    (g : MemoryGraph) (idx : ℕ) (kind : Kind) (dead : Bool) (dep : List ℕ)
    → IsIndexed g
    → IsIndexed (link_dependency g idx kind dead dep)
unfolding link_dependency
link_dependency-IsIndexed g idx kind dead dep x = go (Dict.get g.by_id dep)
  where
    go :
        (o : Option ℕ)
        → let g' : MemoryGraph = elim o [
          | none ↦ g
          | some dep_idx ↦
              let linked =
                add_edge g idx dep_idx (if kind_eq kind claim then supports else derived_from) in
              if dead
              then linked
              else set_meta linked dep_idx
                  (record (meta_at linked dep_idx) { superseded_source = false })
        ] in
          IsIndexed g'
    go none = x
    go (some dep_idx) =
        let y =
          add_edge-IsIndexed g idx dep_idx (if kind_eq kind claim then supports else derived_from)
            x in
        if-IsIndexed dead _ _ y (set_meta-IsIndexed _ dep_idx _ y)

link_dependencies-IsIndexed :
    (g : MemoryGraph) (idx : ℕ) (kind : Kind) (dead : Bool) (deps : List (List ℕ))
    → IsIndexed g
    → IsIndexed (link_dependencies g idx kind dead deps)
unfolding link_dependencies
link_dependencies-IsIndexed g idx kind dead [] x = x
link_dependencies-IsIndexed g idx kind dead (dep ∷ deps) x =
    link_dependencies-IsIndexed (link_dependency g idx kind dead dep) idx kind dead deps
      (link_dependency-IsIndexed g idx kind dead dep x)

finish-IsIndexed : (g : MemoryGraph) (idx : ℕ) → IsIndexed g → IsIndexed (finish g idx)
unfolding finish
finish-IsIndexed g idx x =
    bump-IsIndexed _ (link_dependencies-IsIndexed g idx _ _ (node_at g idx).dependencies x)

place-IsIndexed :
    (g : MemoryGraph) (node : Node)
    → is_superseded node.status ≡ false
    → IsIndexed g
    → IsIndexed (place g node).0
unfolding place
place-IsIndexed g node alive x = elim (Option-cases (Dict.get g.by_id node.id)) [
  | inl absent ↦ rw (absent, place) (insert_new-IsIndexed g node alive x)
  | inr (idx, found) ↦
      let (below, same) = x.address node.id idx found in
      let y = replace_node-IsIndexed g idx node below (sym same) alive x in
      rw (found, place)
        (if-IsIndexed (not (bytes_eq (fingerprint (node_at g idx)) (fingerprint node))) _ _
          (invalidate-IsIndexed _ idx false y) y)
]

pub restore_edge-IsIndexed :
    (g : MemoryGraph) (src dst : List ℕ) (kind : EdgeType)
    → IsIndexed g
    → IsIndexed (restore_edge g src dst kind)
unfolding restore_edge
restore_edge-IsIndexed g src dst kind x = elim (Option-cases (Dict.get g.by_id src)) [
  | inl absent ↦ rw (absent, restore_edge) x
  | inr (s, found) ↦ elim (Option-cases (Dict.get g.by_id dst)) [
    | inl absent ↦ rw (found, absent, restore_edge) x
    | inr (d, at) ↦ rw (found, at, restore_edge) (add_edge-IsIndexed g s d kind x)
  ]
]

pub upsert-IsIndexed :
    (g : MemoryGraph) (node : Node) (has_span : List ℕ → Bool) (clock : Clock)
    (r : MemoryGraph × ℕ × Clock)
    → upsert g node has_span clock ≡ ok r
    → is_superseded node.status ≡ false
    → IsIndexed g
    → IsIndexed r.0
unfolding upsert
upsert-IsIndexed g node has_span clock r h alive x = go (require_grounding g node has_span) h
  where
    done : MemoryGraph × ℕ × Clock
    done =
        let (clock', now) = tick clock in
        let p = place g (stamped node now) in (finish p.0 p.1, p.1, clock')

    go :
        (q : Result (Unit {0}))
        → let answer : Result (MemoryGraph × ℕ × Clock) = elim q [
          | err e ↦ err e
          | ok _ ↦ ok done
        ] in
          answer ≡ ok r → IsIndexed r.0
    go (err e) same = cc
    go (ok _) same =
        subst (λ (t : MemoryGraph × ℕ × Clock). IsIndexed t.0)
          (ap (λ (a : Result (MemoryGraph × ℕ × Clock)). elim a [ err e ↦ r | ok t ↦ t ]) same)
          (finish-IsIndexed _ _ (place-IsIndexed g (stamped node (tick clock).1) alive x))
