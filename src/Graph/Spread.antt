-- ===== src/Graph/Spread.antt =====
-- src/graph.rs: what the cascade of `invalidate` changes: which nodes it marks, and how many.
use subnext.Prelude.{
  ◌≡◌, refl, ℕ, zero, suc, ◌≤◌, none, Bool, true, false, not, ◌&&◌, List, [], ◌∷◌, length,
  length-append, ◌==◌, if◌then◌else◌, arith, ◌∙◌, ap, Bool-cases, inl, inr,
}
use subnext.Nodes.{Node, Status, stale, kind_eq, evidence, is_superseded}
use subnext.Graph.State.{MemoryGraph, node_at, has, blank, set_status}
use subnext.Graph.Cascade.{
  Wave, mark_stale, visit, round, loop, start, run, record_marked, invalidate,
}
use subnext.Graph.Reads.{
  get_or-set_same, status-set_status, kind-set_status, get_or-past, has-append,
}

kind-mark_stale :
    (g : MemoryGraph) (c i : ℕ) → (node_at (mark_stale g c) i).kind ≡ (node_at g i).kind
unfolding mark_stale
kind-mark_stale g c i =
    let n = node_at (set_status g c stale) c in
    ground (
      arith,
      kind-set_status g c i stale,
      get_or-set_same (λ (m : Node). m.kind) (set_status g c stale).nodes c i
          (record n { level_cache = record n.level_cache { l3 = none } }) blank refl,
    )

kind-past : (g : MemoryGraph) (c : ℕ) → length g.nodes ≤ c → (node_at g c).kind ≡ evidence
kind-past g c h = ap (λ (n : Node). n.kind) (get_or-past g.nodes c blank h)

status-mark_stale :
    (g : MemoryGraph) (c i : ℕ)
    → (node_at (mark_stale g c) i).status ≡ (
        if c == i && not (kind_eq (node_at g i).kind evidence) then stale else (node_at g i).status)
unfolding mark_stale
status-mark_stale g c i =
    let n = node_at (set_status g c stale) c in
    ground (
      arith,
      status-set_status g c i stale,
      kind-past g c,
      get_or-set_same (λ (m : Node). m.status) (set_status g c stale).nodes c i
          (record n { level_cache = record n.level_cache { l3 = none } }) blank refl,
    )

-- The status of a node once the nodes of `marked` are marked.
abbrev pub status_after : MemoryGraph → List ℕ → ℕ → Status
status_after g marked i =
    if has i marked && not (kind_eq (node_at g i).kind evidence)
    then stale
    else (node_at g i).status

record Spreads (g : MemoryGraph) (w : Wave) : Type 0 where
  kinds : (i : ℕ) → (node_at w.graph i).kind ≡ (node_at g i).kind
  statuses : (i : ℕ) → (node_at w.graph i).status ≡ status_after g w.marked i
  caps : w.graph.max_cascade ≡ g.max_cascade
  bound : length w.marked ≤ g.max_cascade
  skips : (i : ℕ) → has i w.marked ≡ true → is_superseded (node_at g i).status ≡ false

max_cascade-mark_stale : (g : MemoryGraph) (c : ℕ) → (mark_stale g c).max_cascade ≡ g.max_cascade
unfolding mark_stale set_status
max_cascade-mark_stale g c = ground arith

visit-Spreads :
    (g : MemoryGraph) (w : Wave) (c depth : ℕ) → Spreads g w → Spreads g (visit w c depth)
unfolding visit
visit-Spreads g w c depth s = record {
  kinds = λ i. ground (arith, kind-mark_stale w.graph c i, s.kinds i);
  statuses = λ i.
      ground
        (arith, status-mark_stale w.graph c i, s.statuses i, s.kinds i, has-append i c w.marked);
  caps = ground (arith, max_cascade-mark_stale w.graph c, s.caps);
  bound = ground (arith, s.bound, s.caps, length-append w.marked (c ∷ []));
  skips = λ i m. ground (arith, s.statuses i, s.skips i, has-append i c w.marked);
}

Spreads-requeue :
    (g : MemoryGraph) (w : Wave) (seen : List ℕ) (queue : List (ℕ × ℕ))
    → Spreads g w
    → Spreads g (record w { seen = seen; queue = queue })
Spreads-requeue g w seen queue s = record {
  kinds = s.kinds;
  statuses = s.statuses;
  caps = s.caps;
  bound = s.bound;
  skips = s.skips;
}

round-Spreads :
    (g : MemoryGraph) (w : Wave) (c depth : ℕ) (rest : List (ℕ × ℕ))
    → Spreads g w
    → Spreads g (round w c depth rest)
unfolding round
round-Spreads g w c depth rest s = elim (Bool-cases (has c w.seen)) [
  | inl seen ↦ rw seen (Spreads-requeue g w w.seen rest s)
  | inr new ↦ rw new (
      visit-Spreads g (record w { seen = c ∷ w.seen; queue = rest }) c depth
        (Spreads-requeue g w (c ∷ w.seen) rest s))
]

loop-Spreads : (g : MemoryGraph) (fuel : ℕ) (w : Wave) → Spreads g w → Spreads g (loop fuel w)
unfolding loop
loop-Spreads g zero w s = s
loop-Spreads g (suc fuel) w s =
    go w.queue (λ c depth rest.
      loop-Spreads g fuel (round w c depth rest) (round-Spreads g w c depth rest s))
  where
    go :
        (q : List (ℕ × ℕ))
        → ((c depth : ℕ) (rest : List (ℕ × ℕ)) → Spreads g (loop fuel (round w c depth rest)))
        → Spreads g
            (elim q [ [] ↦ w | (current, depth) ∷ rest ↦ loop fuel (round w current depth rest) ])
    go [] later = s
    go ((c, depth) ∷ rest) later = later c depth rest

run-Spreads :
    (g : MemoryGraph) (node : ℕ) (include_self : Bool) → Spreads g (run g node include_self)
unfolding run start has
run-Spreads g node include_self = loop-Spreads g _ (start g node include_self) (record {
  kinds = λ i. refl;
  statuses = λ i. refl;
  caps = refl;
  bound = omega arith;
  skips = λ i m. cc;
})

node_at-record_marked :
    (g : MemoryGraph) (marked : List ℕ) (i : ℕ) → node_at (record_marked g marked) i ≡ node_at g i
unfolding record_marked
node_at-record_marked g [] i = refl
node_at-record_marked g (m ∷ ms) i = refl

-- After `invalidate`, a node that was marked is stale unless it is evidence, every other node has
-- the status that it had, no superseded node was marked, and at most `max_cascade` nodes were.
pub status-invalidate :
    (g : MemoryGraph) (node : ℕ) (include_self : Bool) (i : ℕ)
    → let r = invalidate g node include_self in
      ((node_at r.0 i).status ≡ status_after g r.1 i)
      × (has i r.1 && is_superseded (node_at g i).status ≡ false)
      × (length r.1 ≤ g.max_cascade)
unfolding invalidate
status-invalidate g node include_self i =
    let w = run g node include_self in
    let s = run-Spreads g node include_self in
    (
      ap (λ (n : Node). n.status) (node_at-record_marked w.graph w.marked i) ∙ s.statuses i,
      ground (arith, s.skips i),
      s.bound,
    )
