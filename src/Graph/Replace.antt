-- ===== src/Graph/Replace.antt =====
-- src/graph.rs: the branch of `upsert_inner` for an id that is there keeps the invariant of the
-- indexes, where the replacement has the id of the node and is not superseded.
use subnext.Prelude.{
  ◌≡◌, refl, sym, ap, ◌∙◌, ℕ, ◌<◌, true, false, not, ◌&&◌, Option, none, some, List, length, set,
  length-set, ◌==◌, if◌then◌else◌, arith,
}
use subnext.Prelude.Bytes.{bytes_eq_iff}
use subnext.Prelude.Dict
use subnext.Prelude.Dict.{Dict}
use subnext.Nodes.{Node, is_superseded}
use subnext.Graph.State.{MemoryGraph, node_at, blank, has, listed, drop_key, reindex_key, same_key}
use subnext.Graph.Upsert.{replace_node}
use subnext.Graph.Reads.{get_or-set, get_or-set_same}
use subnext.Graph.Indexed.{key_is, IsIndexed, has-push_key, has-join_live, has-drop_key}

same_key_sound : (a b : Option (List ℕ)) → same_key a b ≡ true → a ≡ b
same_key_sound none none h = refl
same_key_sound none (some b) h = cc
same_key_sound (some a) none h = cc
same_key_sound (some a) (some b) h = ap some (bytes_eq_iff a b h)

abbrev keep_counts : MemoryGraph → ℕ → Node → Node
keep_counts g idx node = record node {
  reads = (node_at g idx).reads;
  admits = (node_at g idx).admits;
}

module _ (g : MemoryGraph) (idx : ℕ) (node : Node) where
  nodes-replace_node : (replace_node g idx node).nodes ≡ set g.nodes idx (keep_counts g idx node)
  unfolding replace_node reindex_key
  nodes-replace_node = ground arith

  by_id-replace_node : (replace_node g idx node).by_id ≡ g.by_id
  unfolding replace_node reindex_key
  by_id-replace_node = ground arith

  keyed-replace_node :
      (k : List ℕ) (i : ℕ)
      → IsIndexed g
      → has i (listed (replace_node g idx node).by_key k)
        ≡ (if idx == i then key_is node.key k else key_is (node_at g i).key k)
  unfolding replace_node reindex_key
  keyed-replace_node k i x = ground (
    arith,
    x.keyed k i,
    same_key_sound (node_at g idx).key node.key,
    has-push_key (drop_key g.by_key (node_at g idx).key idx) node.key idx i k,
    has-drop_key g.by_key (node_at g idx).key idx i k,
  )

  live-replace_node :
      (k : List ℕ) (i : ℕ)
      → IsIndexed g
      → has i (listed (replace_node g idx node).live_by_key k) ≡ (
          if idx == i
          then key_is node.key k
          else key_is (node_at g i).key k && not (is_superseded (node_at g i).status))
  unfolding replace_node reindex_key
  live-replace_node k i x = ground (
    arith,
    x.live k i,
    same_key_sound (node_at g idx).key node.key,
    has-join_live (drop_key g.live_by_key (node_at g idx).key idx) node.key idx i k,
    has-join_live g.live_by_key node.key idx i k,
    has-drop_key g.live_by_key (node_at g idx).key idx i k,
  )

  pub replace_node-IsIndexed :
      idx < length g.nodes
      → node.id ≡ (node_at g idx).id
      → is_superseded node.status ≡ false
      → IsIndexed g
      → IsIndexed (replace_node g idx node)
  replace_node-IsIndexed below same alive x = record {
    keyed = λ k i. rw nodes-replace_node (
        ground (
          arith,
          keyed-replace_node k i x,
          get_or-set (λ (n : Node). n.key) g.nodes idx i (keep_counts g idx node) blank,
        ));
    live = λ k i. rw nodes-replace_node (
        ground (
          arith,
          live-replace_node k i x,
          get_or-set (λ (n : Node). n.key) g.nodes idx i (keep_counts g idx node) blank,
          get_or-set (λ (n : Node). n.status) g.nodes idx i (keep_counts g idx node) blank,
        ));
    address = λ k i h.
        let (bound, found) = x.address k i (sym (ap (λ d. Dict.get d k) by_id-replace_node) ∙ h) in
        rw nodes-replace_node (
          rw (length-set g.nodes idx (keep_counts g idx node)) bound,
          get_or-set_same (λ (n : Node). n.id) g.nodes idx i (keep_counts g idx node) blank same
              ∙ found,
        );
  }
