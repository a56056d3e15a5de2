-- ===== src/Graph/Writes.antt =====
-- src/graph.rs: the writes that change an index of the graph keep the invariant of the indexes:
-- `set_status`, the insertion of a node and its replacement.
use subnext.Prelude.{
  ◌≡◌, refl, sym, ap, ◌∙◌, ℕ, zero, suc, true, false, not, ◌&&◌, List, [], ◌∷◌, ◌++◌, length,
  get_or, length-set, length-append, ◌==◌, if◌then◌else◌, arith,
}
use subnext.Prelude.Bytes.{bytes_eq_iff}
use subnext.Prelude.Dict
use subnext.Prelude.Dict.{Dict}
use subnext.Nodes.{Node, Status, is_superseded}
use subnext.Graph.State.{MemoryGraph, node_at, blank, has, listed, set_status}
use subnext.Graph.Upsert.{append_node, insert_new, insert_restored}
use subnext.Graph.Reads.{get_or-set_same, status-set_status, get_or-past}
use subnext.Graph.Indexed.{key_is, IsIndexed, has-push_key, has-cross_live}

live-set_status :
    (g : MemoryGraph) (c : ℕ) (s : Status) (k : List ℕ) (i : ℕ)
    → IsIndexed g
    → has i (listed (set_status g c s).live_by_key k)
      ≡ (key_is (node_at g i).key k && not (is_superseded (node_at (set_status g c s) i).status))
unfolding set_status
live-set_status g c s k i x = ground (
  arith,
  x.live k i,
  status-set_status g c i s,
  get_or-past g.nodes c blank,
  has-cross_live g.live_by_key (node_at g c).key c i true k,
  has-cross_live g.live_by_key (node_at g c).key c i false k,
)

size-set_status :
    (g : MemoryGraph) (c : ℕ) (s : Status) → length (set_status g c s).nodes ≡ length g.nodes
unfolding set_status
size-set_status g c s = ground (arith, length-set g.nodes c (record (node_at g c) { status = s }))

id-set_status :
    (g : MemoryGraph) (c : ℕ) (s : Status) (i : ℕ)
    → (node_at (set_status g c s) i).id ≡ (node_at g i).id
unfolding set_status
id-set_status g c s i = ground (
  arith,
  get_or-set_same (λ (m : Node). m.id) g.nodes c i (record (node_at g c) { status = s }) blank refl,
)

key-set_status :
    (g : MemoryGraph) (c : ℕ) (s : Status) (i : ℕ)
    → (node_at (set_status g c s) i).key ≡ (node_at g i).key
unfolding set_status
key-set_status g c s i = ground (
  arith,
  get_or-set_same (λ (m : Node). m.key) g.nodes c i (record (node_at g c) { status = s }) blank
      refl,
)

maps-set_status :
    (g : MemoryGraph) (c : ℕ) (s : Status)
    → ((set_status g c s).by_id ≡ g.by_id) × ((set_status g c s).by_key ≡ g.by_key)
unfolding set_status
maps-set_status g c s = ground arith

pub set_status-IsIndexed :
    (g : MemoryGraph) (c : ℕ) (s : Status) → IsIndexed g → IsIndexed (set_status g c s)
set_status-IsIndexed g c s x = record {
  keyed = λ k i. rw ((maps-set_status g c s).1, key-set_status g c s i) (x.keyed k i);
  live = λ k i. rw (key-set_status g c s i) (live-set_status g c s k i x);
  address = λ k i h.
      let (below, found) =
        x.address k i (sym (ap (λ d. Dict.get d k) (maps-set_status g c s).0) ∙ h) in
      (rw (size-set_status g c s) below, id-set_status g c s i ∙ found);
}

-- A read behind an append.
get_or-append {ℓ κ} :
    {A : Type ℓ} {B : Type κ} (field : A → B) (l : List A) (i : ℕ) (v d : A)
    → field (get_or (l ++ (v ∷ [])) i d) ≡ (if length l == i then field v else field (get_or l i d))
get_or-append field [] zero v d = ground arith
get_or-append field [] (suc i) v d = ground arith
get_or-append field (x ∷ l) zero v d = ground arith
get_or-append field (x ∷ l) (suc i) v d = ground (arith, get_or-append field l i v d)

-- A node is appended, and the two maps of keys were extended for it.
append_node-IsIndexed :
    (g : MemoryGraph) (node : Node) (keys lives : Dict (List ℕ))
    → IsIndexed g
    → ((k : List ℕ) (i : ℕ)
        → has i (listed keys k)
          ≡ (if length g.nodes == i && key_is node.key k then true else has i (listed g.by_key k)))
    → ((k : List ℕ) (i : ℕ)
        → has i (listed lives k) ≡ (
            if length g.nodes == i && (key_is node.key k && not (is_superseded node.status))
            then true
            else has i (listed g.live_by_key k)))
    → IsIndexed (append_node (record g { by_key = keys; live_by_key = lives }) node)
unfolding append_node
append_node-IsIndexed g node keys lives x hk hl = record {
  keyed = λ k i. ground (
    arith,
    hk k i,
    x.keyed k i,
    get_or-append (λ (n : Node). n.key) g.nodes i node blank,
    get_or-past g.nodes i blank,
  );
  live = λ k i. ground (
    arith,
    hl k i,
    x.live k i,
    get_or-append (λ (n : Node). n.key) g.nodes i node blank,
    get_or-append (λ (n : Node). n.status) g.nodes i node blank,
    get_or-past g.nodes i blank,
  );
  address = λ k i h. ground (
    arith,
    Dict.get-insert g.by_id node.id k (length g.nodes),
    x.address k i,
    get_or-append (λ (n : Node). n.id) g.nodes i node blank,
    bytes_eq_iff node.id k,
    length-append g.nodes (node ∷ []),
  );
}

pub insert_new-IsIndexed :
    (g : MemoryGraph) (node : Node)
    → is_superseded node.status ≡ false
    → IsIndexed g
    → IsIndexed (insert_new g node)
unfolding insert_new
insert_new-IsIndexed g node fresh_one x =
    append_node-IsIndexed g node _ _ x (λ k i. has-push_key g.by_key node.key (length g.nodes) i k)
      (λ k i. ground (arith, has-push_key g.live_by_key node.key (length g.nodes) i k, fresh_one))

pub insert_restored-IsIndexed :
    (g : MemoryGraph) (node : Node) → IsIndexed g → IsIndexed (insert_restored g node).0
unfolding insert_restored
insert_restored-IsIndexed g node x =
    append_node-IsIndexed g node _ _ x (λ k i. has-push_key g.by_key node.key (length g.nodes) i k)
      (λ k i. ground (arith, has-push_key g.live_by_key node.key (length g.nodes) i k))
