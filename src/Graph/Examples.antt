-- ===== src/Graph/Examples.antt =====
-- Runs of the memory graph of src/graph.rs on two nodes: a note, and a claim that depends on it.
use subnext.Prelude.{
  ◌≡◌, refl, ◌↔◌, ◌≤◌, ◌<◌, true, false, ◌&&◌, some, [], ◌∷◌, length, not, none, arith,
}
use subnext.Nodes.{Node, claim, supports, superseded, is_superseded}
use subnext.Graph.State.{
  MemoryGraph, new, blank, node_at, add_edge, set_status, has, listed, contains_edge,
}
use subnext.Graph.Cascade.{
  invalidate, run, start, initial_queue, dependents, loop, round, visit, mark_stale, edge_total,
}
use subnext.Graph.Resolve.{supersede}
use subnext.Graph.Upsert.{insert_restored, append_node, require_grounding, ok}
use subnext.Graph.Ends.{run-empty}
use subnext.Graph.Spread.{status-invalidate, status_after}
use subnext.Graph.Indexed.{IsIndexed, key_is}
use subnext.Graph.Reach.{Reaches, begins, restores, links, supersedes_one, Reaches-IsIndexed}
use subnext.Graph.Grounding.{HasProvenance, require_grounding_iff}
use subnext.Graph.Superseded.{has-supersede}
use subnext.Graph.Queries.{by_key, live_by_key_sorted, has-by_key}
use subnext.Graph.Audit.{explain_walk, explain_walk-empty}

abbrev note : Node
note = record blank { id = 1 ∷ []; source_spans = (7 ∷ []) ∷ []; key = some (5 ∷ []) }

abbrev fact : Node
fact = record blank { id = 2 ∷ []; kind = claim; dependencies = (1 ∷ []) ∷ []; key = some (5 ∷ []) }

abbrev noted : MemoryGraph
noted = (insert_restored new note).0

abbrev sample : MemoryGraph
sample = add_edge (insert_restored noted fact).0 1 0 supports

sample-Reaches : Reaches sample
sample-Reaches = links 1 0 supports (restores fact (restores note begins))

-- The cascade from the note reaches the claim.
invalidate-sample : (invalidate sample 0 false).1 ≡ 1 ∷ []
unfolding invalidate run start initial_queue dependents loop round visit mark_stale set_status
    add_edge contains_edge insert_restored append_node has edge_total
invalidate-sample = refl

run-empty_example : (run sample 0 false).queue ≡ []
run-empty_example = run-empty sample 0 false

status-invalidate_example :
    let r = invalidate sample 0 false in
    ((node_at r.0 1).status ≡ status_after sample r.1 1)
    × (has 1 r.1 && is_superseded (node_at sample 1).status ≡ false)
    × (length r.1 ≤ sample.max_cascade)
status-invalidate_example = status-invalidate sample 0 false 1

Reaches-IsIndexed_example : IsIndexed (supersede sample 0 1)
Reaches-IsIndexed_example = Reaches-IsIndexed (supersedes_one 0 1 sample-Reaches)

require_grounding_iff_example :
    (require_grounding noted fact (λ s. true) ≡ ok tt) ↔ HasProvenance noted fact (λ s. true)
require_grounding_iff_example = require_grounding_iff noted fact (λ s. true)

length-sample : 0 < length sample.nodes
unfolding add_edge contains_edge insert_restored append_node
length-sample = omega arith

has-supersede_example :
    ((node_at (supersede sample 0 1) 0).status ≡ superseded)
    × (has 0 (listed (supersede sample 0 1).live_by_key (5 ∷ [])) ≡ false)
has-supersede_example = has-supersede sample 0 1 (5 ∷ []) sample-Reaches length-sample

has-by_key_example :
    (has 1 (by_key sample (5 ∷ []) false) ≡ key_is (node_at sample 1).key (5 ∷ []))
    × (has 1 (by_key sample (5 ∷ []) true)
        ≡ (key_is (node_at sample 1).key (5 ∷ []) && not (is_superseded (node_at sample 1).status)))
    × (has 1 (live_by_key_sorted sample (5 ∷ [])) ≡ has 1 (by_key sample (5 ∷ []) true))
has-by_key_example = has-by_key sample (5 ∷ []) 1 sample-Reaches

explain_walk-empty_example : (explain_walk sample 1 none).queue ≡ []
explain_walk-empty_example = explain_walk-empty sample 1 none
