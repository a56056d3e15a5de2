-- ===== src/Graph/Kept.antt =====
-- src/graph.rs: every operation of the graph keeps the invariant of the indexes.
use subnext.Prelude.{
  refl, ℕ, zero, suc, Bool, true, false, none, List, [], ◌∷◌, ◌++◌, length, leb, ltb, ◌||◌,
  if◌then◌else◌, Bool-cases, inl, inr,
}
use subnext.Ids.{Clock}
use subnext.Nodes.{NodeMeta, is_superseded, fresh, stale, EdgeType, kind_eq, evidence}
use subnext.Graph.State.{MemoryGraph, node_at, bump, add_edge, set_status, has}
use subnext.Graph.Cascade.{
  Wave, mark_stale, visit, round, loop, start, run, record_marked, invalidate, drain_rounds,
  drain_pending, revalidate,
}
use subnext.Graph.Resolve.{set_meta}
use subnext.Graph.Indexed.{IsIndexed, Keeps-IsIndexed, Keeps-set_node, Keeps-bump, Keeps-add_edge}
use subnext.Graph.Writes.{set_status-IsIndexed}

pub if-IsIndexed :
    (b : Bool) (g g' : MemoryGraph) → IsIndexed g → IsIndexed g' → IsIndexed (if b then g else g')
if-IsIndexed true g g' x y = x
if-IsIndexed false g g' x y = y

pub set_meta-IsIndexed :
    (g : MemoryGraph) (i : ℕ) (m : NodeMeta) → IsIndexed g → IsIndexed (set_meta g i m)
set_meta-IsIndexed g i m x =
    Keeps-IsIndexed g _ (Keeps-set_node g i (record (node_at g i) { meta = m }) refl refl refl) x

pub bump-IsIndexed : (g : MemoryGraph) → IsIndexed g → IsIndexed (bump g)
bump-IsIndexed g x = Keeps-IsIndexed g (bump g) (Keeps-bump g) x

pub add_edge-IsIndexed :
    (g : MemoryGraph) (src dst : ℕ) (kind : EdgeType)
    → IsIndexed g
    → IsIndexed (add_edge g src dst kind)
add_edge-IsIndexed g src dst kind x = Keeps-IsIndexed g _ (Keeps-add_edge g src dst kind) x

-- The fields that no index is about.
requeue_pending-IsIndexed :
    (g : MemoryGraph) (pending : List ℕ)
    → IsIndexed g
    → IsIndexed (record g { pending_invalidation = pending })
requeue_pending-IsIndexed g pending x = record {
  keyed = x.keyed;
  live = x.live;
  address = x.address;
}

mark_stale-IsIndexed : (g : MemoryGraph) (c : ℕ) → IsIndexed g → IsIndexed (mark_stale g c)
unfolding mark_stale
mark_stale-IsIndexed g c x =
    let g' = set_status g c stale in
    let n = node_at g' c in
    if-IsIndexed (kind_eq (node_at g c).kind evidence) g _ x (
      Keeps-IsIndexed g' _
        (Keeps-set_node g' c (record n { level_cache = record n.level_cache { l3 = none } }) refl
          refl refl)
        (set_status-IsIndexed g c stale x))

visit-IsIndexed : (w : Wave) (c depth : ℕ) → IsIndexed w.graph → IsIndexed (visit w c depth).graph
unfolding visit
visit-IsIndexed w c depth x =
    elim (Bool-cases (leb w.graph.max_cascade (length w.marked) || ltb w.graph.max_depth depth)) [
      | inl full ↦
          rw full (requeue_pending-IsIndexed w.graph (w.graph.pending_invalidation ++ (c ∷ [])) x)
      | inr room ↦ elim (Bool-cases (is_superseded (node_at w.graph c).status)) [
        | inl dead ↦ rw (room, dead) x
        | inr alive ↦ rw (room, alive) (mark_stale-IsIndexed w.graph c x)
      ]
    ]

round-IsIndexed :
    (w : Wave) (c depth : ℕ) (rest : List (ℕ × ℕ))
    → IsIndexed w.graph
    → IsIndexed (round w c depth rest).graph
unfolding round
round-IsIndexed w c depth rest x = elim (Bool-cases (has c w.seen)) [
  | inl seen ↦ rw seen x
  | inr new ↦ rw new (visit-IsIndexed (record w { seen = c ∷ w.seen; queue = rest }) c depth x)
]

loop-IsIndexed : (fuel : ℕ) (w : Wave) → IsIndexed w.graph → IsIndexed (loop fuel w).graph
unfolding loop
loop-IsIndexed zero w x = x
loop-IsIndexed (suc fuel) w x =
    go w.queue (λ c depth rest.
      loop-IsIndexed fuel (round w c depth rest) (round-IsIndexed w c depth rest x))
  where
    go :
        (q : List (ℕ × ℕ))
        → ((c depth : ℕ) (rest : List (ℕ × ℕ)) → IsIndexed (loop fuel (round w c depth rest)).graph)
        → let w' : Wave = elim q [
          | [] ↦ w
          | (current, depth) ∷ rest ↦ loop fuel (round w current depth rest)
        ] in
          IsIndexed w'.graph
    go [] later = x
    go ((c, depth) ∷ rest) later = later c depth rest

record_marked-IsIndexed :
    (g : MemoryGraph) (marked : List ℕ) → IsIndexed g → IsIndexed (record_marked g marked)
unfolding record_marked
record_marked-IsIndexed g [] x = x
record_marked-IsIndexed g (m ∷ ms) x = record {
  keyed = x.keyed;
  live = x.live;
  address = x.address;
}

pub invalidate-IsIndexed :
    (g : MemoryGraph) (node : ℕ) (include_self : Bool)
    → IsIndexed g
    → IsIndexed (invalidate g node include_self).0
unfolding invalidate run start
invalidate-IsIndexed g node include_self x =
    record_marked-IsIndexed _ _ (loop-IsIndexed _ (start g node include_self) x)

drain_rounds-IsIndexed :
    (n : ℕ) (g : MemoryGraph) (marked : List ℕ)
    → IsIndexed g
    → IsIndexed (drain_rounds n g marked).0
unfolding drain_rounds
drain_rounds-IsIndexed zero g marked x = x
drain_rounds-IsIndexed (suc n) g marked x =
    go g.pending_invalidation (drain_rounds-IsIndexed n g marked x) (λ idx rest.
      let g' : MemoryGraph = record g { pending_invalidation = rest } in
      drain_rounds-IsIndexed n (invalidate g' idx true).0 (marked ++ (invalidate g' idx true).1)
        (invalidate-IsIndexed g' idx true (requeue_pending-IsIndexed g rest x)))
  where
    go :
        (pending : List ℕ)
        → IsIndexed (drain_rounds n g marked).0
        → ((idx : ℕ) (rest : List ℕ)
            → let r = invalidate (record g { pending_invalidation = rest }) idx true in
              IsIndexed (drain_rounds n r.0 (marked ++ r.1)).0)
        → let r : MemoryGraph × List ℕ = elim pending [
          | [] ↦ drain_rounds n g marked
          | idx ∷ rest ↦
              let r = invalidate (record g { pending_invalidation = rest }) idx true in
              drain_rounds n r.0 (marked ++ r.1)
        ] in
          IsIndexed r.0
    go [] done later = done
    go (idx ∷ rest) done later = later idx rest

pub drain_pending-IsIndexed :
    (g : MemoryGraph) (limit : ℕ) → IsIndexed g → IsIndexed (drain_pending g limit).0
unfolding drain_pending
drain_pending-IsIndexed g limit x = drain_rounds-IsIndexed _ g [] x

pub revalidate-IsIndexed :
    (g : MemoryGraph) (idx : ℕ) (clock : Clock) → IsIndexed g → IsIndexed (revalidate g idx clock).0
unfolding revalidate
revalidate-IsIndexed g idx clock x =
    let g' = set_status g idx fresh in
    bump-IsIndexed _ (
      Keeps-IsIndexed g' _ (Keeps-set_node g' idx _ refl refl refl)
        (set_status-IsIndexed g idx fresh x))
