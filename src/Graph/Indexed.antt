-- ===== src/Graph/Indexed.antt =====
-- src/graph.rs: the invariant of the three indexes of the graph, `by_id`, `by_key` and `live_by_key`,
-- and the small writes that keep it.
use subnext.Prelude.{
  ◌≡◌, refl, sym, ap, ◌∙◌, ℕ, ◌<◌, Bool, true, false, not, ◌&&◌, Option, none, some, List, [], ◌∷◌,
  ◌++◌, length, length-set, ◌==◌, if◌then◌else◌, arith,
}
use subnext.Prelude.Bytes.{bytes_eq, bytes_eq_iff}
use subnext.Prelude.Dict
use subnext.Prelude.Dict.{Dict}
use subnext.Nodes.{Node, is_superseded, EdgeType}
use subnext.Graph.State.{
  MemoryGraph, node_at, set_node, blank, has, remove, push_new, listed, retain_other, add_edge,
  cross_live, drop_key, push_key, bump,
}
use subnext.Graph.Upsert.{join_live}
use subnext.Graph.Reads.{get_or-set_same, has-append, has-remove, has-push_new}

-- Is this the key?
abbrev pub key_is : Option (List ℕ) → List ℕ → Bool
key_is none k = false
key_is (some j) k = bytes_eq j k

-- A list of `by_key` holds the nodes with the key, one of `live_by_key` those of them that are not
-- superseded, and `by_id` leads to a node with the id.
pub record IsIndexed (g : MemoryGraph) : Type 0 where
  pub keyed : (k : List ℕ) (i : ℕ) → has i (listed g.by_key k) ≡ key_is (node_at g i).key k
  pub live :
      (k : List ℕ) (i : ℕ)
      → has i (listed g.live_by_key k)
        ≡ (key_is (node_at g i).key k && not (is_superseded (node_at g i).status))
  pub address :
      (k : List ℕ) (i : ℕ)
      → Dict.get g.by_id k ≡ some i
      → (i < length g.nodes) × ((node_at g i).id ≡ k)

-- The second graph has the indexes of the first, and its nodes have the same ids, keys and statuses.
pub record Keeps (g g' : MemoryGraph) : Type 0 where
  pub ids : g'.by_id ≡ g.by_id
  pub keys : g'.by_key ≡ g.by_key
  pub lives : g'.live_by_key ≡ g.live_by_key
  pub size : length g'.nodes ≡ length g.nodes
  pub id : (i : ℕ) → (node_at g' i).id ≡ (node_at g i).id
  pub key : (i : ℕ) → (node_at g' i).key ≡ (node_at g i).key
  pub status : (i : ℕ) → (node_at g' i).status ≡ (node_at g i).status

pub Keeps-IsIndexed : (g g' : MemoryGraph) → Keeps g g' → IsIndexed g → IsIndexed g'
Keeps-IsIndexed g g' s x = record {
  keyed = λ k i. rw (s.keys, s.key i) (x.keyed k i);
  live = λ k i. rw (s.lives, s.key i, s.status i) (x.live k i);
  address = λ k i h.
      let (below, found) = x.address k i (sym (ap (λ d. Dict.get d k) s.ids) ∙ h) in
      (rw s.size below, s.id i ∙ found);
}

-- A write of a node that keeps its id, key and status.
pub Keeps-set_node :
    (g : MemoryGraph) (c : ℕ) (n : Node)
    → n.id ≡ (node_at g c).id
    → n.key ≡ (node_at g c).key
    → n.status ≡ (node_at g c).status
    → Keeps g (set_node g c n)
Keeps-set_node g c n a b d = record {
  ids = refl;
  keys = refl;
  lives = refl;
  size = length-set g.nodes c n;
  id = λ i. get_or-set_same (λ (m : Node). m.id) g.nodes c i n blank a;
  key = λ i. get_or-set_same (λ (m : Node). m.key) g.nodes c i n blank b;
  status = λ i. get_or-set_same (λ (m : Node). m.status) g.nodes c i n blank d;
}

pub Keeps-bump : (g : MemoryGraph) → Keeps g (bump g)
Keeps-bump g = record {
  ids = refl;
  keys = refl;
  lives = refl;
  size = refl;
  id = λ i. refl;
  key = λ i. refl;
  status = λ i. refl;
}

pub Keeps-add_edge :
    (g : MemoryGraph) (src dst : ℕ) (kind : EdgeType) → Keeps g (add_edge g src dst kind)
unfolding add_edge
Keeps-add_edge g src dst kind = record {
  ids = ground arith;
  keys = ground arith;
  lives = ground arith;
  size = ground arith;
  id = λ i. ground arith;
  key = λ i. ground arith;
  status = λ i. ground arith;
}

-- The list of a key behind a write of the map.
listed-insert :
    (d : Dict (List ℕ)) (k j l : List ℕ)
    → listed (Dict.insert d k l) j ≡ (if bytes_eq k j then l else listed d j)
listed-insert d k j l = ground (arith, Dict.get-insert d k j l)

pub has-push_key :
    (d : Dict (List ℕ)) (key : Option (List ℕ)) (c i : ℕ) (k : List ℕ)
    → has i (listed (push_key d key c) k)
      ≡ (if c == i && key_is key k then true else has i (listed d k))
unfolding push_key
has-push_key d none c i k = ground arith
has-push_key d (some j) c i k = ground (
  arith,
  listed-insert d j k (listed d j ++ (c ∷ [])),
  has-append i c (listed d j),
  bytes_eq_iff j k,
)

pub has-join_live :
    (d : Dict (List ℕ)) (key : Option (List ℕ)) (c i : ℕ) (k : List ℕ)
    → has i (listed (join_live d key c) k)
      ≡ (if c == i && key_is key k then true else has i (listed d k))
unfolding join_live
has-join_live d none c i k = ground arith
has-join_live d (some j) c i k = ground (
  arith,
  listed-insert d j k (push_new c (listed d j)),
  has-push_new i c (listed d j),
  bytes_eq_iff j k,
)

pub has-drop_key :
    (d : Dict (List ℕ)) (key : Option (List ℕ)) (c i : ℕ) (k : List ℕ)
    → has i (listed (drop_key d key c) k)
      ≡ (if c == i && key_is key k then false else has i (listed d k))
unfolding drop_key retain_other has
has-drop_key d none c i k = ground arith
has-drop_key d (some j) c i k = ground (
  arith,
  Dict.get-insert d j k (remove c (listed d j)),
  has-remove i c (listed d j),
  bytes_eq_iff j k,
)

pub has-cross_live :
    (d : Dict (List ℕ)) (key : Option (List ℕ)) (c i : ℕ) (dead : Bool) (k : List ℕ)
    → has i (listed (cross_live d key c dead) k)
      ≡ (if c == i && key_is key k then not dead else has i (listed d k))
unfolding cross_live
has-cross_live d none c i dead k = ground arith
has-cross_live d (some j) c i dead k = ground (
  arith,
  listed-insert d j k (push_new c (listed d j)),
  has-push_new i c (listed d j),
  listed-insert d j k (remove c (listed d j)),
  has-remove i c (listed d j),
  bytes_eq_iff j k,
)
