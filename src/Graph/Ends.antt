-- ===== src/Graph/Ends.antt =====
-- src/graph.rs: the loop of `invalidate` ends. Each round takes an entry off the queue, and adds the
-- dependents of a node only in the round that sees this node first.
use subnext.Prelude.{
  ◌≡◌, refl, subst, ℕ, zero, suc, ◌+◌, ◌≤◌, ◌<◌, Bool, false, List, [], ◌∷◌, length, get_or,
  length-append, Bool-cases, inl, inr, List-cases, if◌then◌else◌, arith,
}
use subnext.Nodes.{Edge}
use subnext.Graph.State.{MemoryGraph, has, in_at, set_status}
use subnext.Graph.Cascade.{Wave, dependents, edge_total, mark_stale, visit, round, loop, start, run}

-- The edges into nodes that were not seen, where the lists of edges start at node `k`.
unfoldable pub unseen : ℕ → List ℕ → List (List Edge) → ℕ
unseen k seen [] = 0
unseen k seen (es ∷ rest) =
    let later = unseen (suc k) seen rest in if has k seen then later else length es + later

unseen-past :
    (k c : ℕ) (seen : List ℕ) (l : List (List Edge))
    → c < k
    → unseen k (c ∷ seen) l ≡ unseen k seen l
unfolding unseen has
unseen-past k c seen [] h = refl
unseen-past k c seen (es ∷ rest) h = ground (arith, unseen-past (suc k) c seen rest)

unseen-cons :
    (k c : ℕ) (seen : List ℕ) (l : List (List Edge))
    → has (k + c) seen ≡ false
    → unseen k ((k + c) ∷ seen) l + length (get_or l c []) ≡ unseen k seen l
unfolding unseen has
unseen-cons k c seen [] h = omega arith
unseen-cons k zero seen (es ∷ rest) h =
    ground (arith, unseen-past (suc k) (k + 0) seen rest (omega arith))
unseen-cons k (suc c) seen (es ∷ rest) h = ground (arith, unseen-cons (suc k) c seen rest)

pub unseen-first :
    (c : ℕ) (seen : List ℕ) (l : List (List Edge))
    → has c seen ≡ false
    → unseen 0 (c ∷ seen) l + length (get_or l c []) ≡ unseen 0 seen l
unseen-first c seen l =
    let e : 0 + c ≡ c = omega arith in
    subst
      (λ n. has n seen ≡ false → unseen 0 (n ∷ seen) l + length (get_or l c []) ≡ unseen 0 seen l) e
      (unseen-cons 0 c seen l)

pub unseen-nil : (k : ℕ) (l : List (List Edge)) → unseen k [] l ≡ edge_total l
unfolding unseen has edge_total
unseen-nil k [] = refl
unseen-nil k (es ∷ rest) = ground (arith, unseen-nil (suc k) rest)

length-dependents : (es : List Edge) (depth : ℕ) → length (dependents es depth) ≤ length es
unfolding dependents
length-dependents [] depth = omega arith
length-dependents (e ∷ es) depth = ground (arith, length-dependents es depth)

mark_stale-in_edges : (g : MemoryGraph) (c : ℕ) → (mark_stale g c).in_edges ≡ g.in_edges
unfolding mark_stale set_status
mark_stale-in_edges g c = ground arith

visit-in_edges : (w : Wave) (c depth : ℕ) → (visit w c depth).graph.in_edges ≡ w.graph.in_edges
unfolding visit
visit-in_edges w c depth = ground (arith, mark_stale-in_edges w.graph c)

round-in_edges :
    (w : Wave) (c depth : ℕ) (rest : List (ℕ × ℕ))
    → (round w c depth rest).graph.in_edges ≡ w.graph.in_edges
unfolding round
round-in_edges w c depth rest =
    ground (arith, visit-in_edges (record w { seen = c ∷ w.seen; queue = rest }) c depth)

-- The rounds that can still come.
abbrev potential : Wave → ℕ
potential w = length w.queue + unseen 0 w.seen w.graph.in_edges

visit-queue :
    (w : Wave) (c depth : ℕ)
    → length (visit w c depth).queue ≤ length w.queue + length (in_at w.graph c)
unfolding visit
visit-queue w c depth = ground (
  arith,
  length-append w.queue (dependents (in_at w.graph c) (depth + 1)),
  length-dependents (in_at w.graph c) (depth + 1),
)

visit-seen : (w : Wave) (c depth : ℕ) → (visit w c depth).seen ≡ w.seen
unfolding visit
visit-seen w c depth = ground arith

-- A round uses one entry up.
potential-round :
    (w : Wave) (c depth : ℕ) (rest : List (ℕ × ℕ))
    → w.queue ≡ (c, depth) ∷ rest
    → potential (round w c depth rest) < potential w
unfolding round
potential-round w c depth rest q = elim (Bool-cases (has c w.seen)) [
  | inl seen ↦ rw (seen, q) (omega arith)
  | inr new ↦
      let w' : Wave = record w { seen = c ∷ w.seen; queue = rest } in
      rw (new, q, visit-in_edges w' c depth, visit-seen w' c depth)
        (omega (arith, visit-queue w' c depth, unseen-first c w.seen w.graph.in_edges new))
]

loop-empty : (fuel : ℕ) (w : Wave) → potential w ≤ fuel → (loop fuel w).queue ≡ []
unfolding loop round
loop-empty zero w h = elim (List-cases w.queue) [
  | inl e ↦ e
  | inr (x, rest, e) ↦ absurd (omega (arith, potential-round w x.0 x.1 rest e))
]
loop-empty (suc fuel) w h = elim (List-cases w.queue) [
  | inl e ↦ rw e refl
  | inr (x, rest, e) ↦
      rw e
        (loop-empty fuel (round w x.0 x.1 rest) (omega (arith, potential-round w x.0 x.1 rest e)))
]

-- The cascade runs until its queue is empty: the fuel, which is the length of the first queue and
-- the number of all edges, is enough from any node of any graph.
pub run-empty :
    (g : MemoryGraph) (node : ℕ) (include_self : Bool) → (run g node include_self).queue ≡ []
unfolding run start
run-empty g node include_self =
    loop-empty _ (start g node include_self) (omega (arith, unseen-nil 0 g.in_edges))
