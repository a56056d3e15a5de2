-- ===== src/Graph/Upsert.antt =====
-- src/graph.rs: `upsert`, `insert_restored`, `restore_edge` and the grounding rule.
use subnext.Prelude.{
  ℕ, ◌+◌, Bool, true, false, not, ◌&&◌, ◌||◌, Option, none, some, List, [], ◌∷◌, ◌++◌, length, leb,
  ◌==◌, if◌then◌else◌,
}
use subnext.Prelude.Bytes.{bytes_eq}
use subnext.Prelude.Dict
use subnext.Ids.{Clock, tick}
use subnext.Nodes.{
  Kind, Node, EdgeType, supports, derived_from, kind_eq, evidence, claim, skill, is_empty,
  is_grounded, is_superseded, fingerprint,
}
use subnext.Graph.State.{
  MemoryGraph, node_at, set_node, bump, push_new, listed, add_edge, same_key, reindex_key, push_key,
  drop_key,
}
use subnext.Graph.Cascade.{invalidate}
use subnext.Graph.Resolve.{set_meta, meta_at}

-- `DcrError::Provenance`; a constructor stands for the message.
pub data DcrError : Type 0 where
  skill_without_artifact : List ℕ → DcrError
  evidence_without_span : DcrError
  no_spans_nor_dependencies : Kind → List ℕ → DcrError
  unknown_source_spans : List (List ℕ) → DcrError
  does_not_reach_evidence : Kind → List ℕ → DcrError

pub data Result {ℓ} (A : Type ℓ) : Type ℓ where
  ok : A → Result A
  err : DcrError → Result A

-- `text.trim().is_empty()`: only White_Space characters, in UTF-8.
abbrev ascii_space : ℕ → Bool
ascii_space c = leb 9 c && leb c 13 || c == 32

abbrev space_of_two : ℕ → ℕ → Bool
space_of_two a b = a == 0xc2 && (b == 0x85 || b == 0xa0)

abbrev space_of_three : ℕ → ℕ → ℕ → Bool
space_of_three a b c =
    a == 0xe1 && (b == 0x9a && c == 0x80)
    || (a == 0xe2
          && (b == 0x80 && (leb 0x80 c && leb c 0x8a || (c == 0xa8 || (c == 0xa9 || c == 0xaf)))
              || b == 0x81 && c == 0x9f)
        || a == 0xe3 && (b == 0x80 && c == 0x80))

unfoldable pub is_blank : List ℕ → Bool
is_blank [] = true
is_blank (a ∷ []) = ascii_space a
is_blank (a ∷ b ∷ []) = ascii_space a && ascii_space b || space_of_two a b
is_blank (a ∷ b ∷ c ∷ rest) = elim (ascii_space a) [
  | true ↦ is_blank (b ∷ c ∷ rest)
  | false ↦ elim (space_of_two a b) [
    | true ↦ is_blank (c ∷ rest)
    | false ↦ elim (space_of_three a b c) [ true ↦ is_blank rest | false ↦ false ]
  ]
]

-- A skill names its artifact.
unfoldable pub has_artifact : Option (List ℕ) → Bool
unfolding is_blank
has_artifact none = false
has_artifact (some reference) = not (is_blank reference)

-- The spans that the raw store does not have, in order.
unfoldable pub missing_spans : (List ℕ → Bool) → List (List ℕ) → List (List ℕ)
missing_spans has_span [] = []
missing_spans has_span (s ∷ ss) =
    let rest = missing_spans has_span ss in if has_span s then rest else s ∷ rest

unfoldable pub reaches_evidence : MemoryGraph → List ℕ → Bool
reaches_evidence g id = elim (Dict.get g.by_id id) [
  | none ↦ false
  | some idx ↦
      let node = node_at g idx in
      kind_eq node.kind evidence || (not (is_empty node.source_spans) || node.meta.grounded)
]

unfoldable pub any_reaches : MemoryGraph → List (List ℕ) → Bool
any_reaches g [] = false
any_reaches g (d ∷ ds) = if reaches_evidence g d then true else any_reaches g ds

-- `has_span` is `RawStore::has_span` of the store.
unfoldable pub require_grounding : MemoryGraph → Node → (List ℕ → Bool) → Result (Unit {0})
require_grounding g node has_span =
    if kind_eq node.kind skill
    then (if has_artifact node.meta.source then ok tt else err (skill_without_artifact node.id))
    else if kind_eq node.kind evidence && is_empty node.source_spans
    then err evidence_without_span
    else if not (kind_eq node.kind evidence) && not (is_grounded node)
    then err (no_spans_nor_dependencies node.kind node.id)
    else if not (is_empty (missing_spans has_span node.source_spans))
    then err (unknown_source_spans (missing_spans has_span node.source_spans))
    else if not (kind_eq node.kind evidence)
        && (is_empty node.source_spans && not (any_reaches g node.dependencies))
    then err (does_not_reach_evidence node.kind node.id)
    else ok tt

-- Appends a node with no edges.
unfoldable pub append_node : MemoryGraph → Node → MemoryGraph
append_node g node =
    let idx = length g.nodes in
    record g {
      nodes = g.nodes ++ (node ∷ []);
      by_id = Dict.insert g.by_id node.id idx;
      out_edges = g.out_edges ++ ([] ∷ []);
      in_edges = g.in_edges ++ ([] ∷ []);
    }

unfoldable pub insert_restored : MemoryGraph → Node → MemoryGraph × ℕ
insert_restored g node =
    let idx = length g.nodes in
    let keyed = record g {
      by_key = push_key g.by_key node.key idx;
      live_by_key =
          if is_superseded node.status then g.live_by_key else push_key g.live_by_key node.key idx;
    } in
    (append_node keyed node, idx)

-- The branch of `upsert_inner` for a new id.
unfoldable pub insert_new : MemoryGraph → Node → MemoryGraph
insert_new g node =
    let idx = length g.nodes in
    append_node
      (record g {
        by_key = push_key g.by_key node.key idx;
        live_by_key = push_key g.live_by_key node.key idx;
      })
      node

-- `list.push(idx)` unless it is there, in the list of the key
unfoldable pub join_live :
    subnext.Prelude.Dict.Dict (List ℕ) → Option (List ℕ) → ℕ → subnext.Prelude.Dict.Dict (List ℕ)
join_live d none idx = d
join_live d (some key) idx = Dict.insert d key (push_new idx (listed d key))

-- The branch of `upsert_inner` for an id that is there, up to the cascade.
unfoldable pub replace_node : MemoryGraph → ℕ → Node → MemoryGraph
unfolding reindex_key
replace_node g idx node =
    let old = node_at g idx in
    let kept = record node { reads = old.reads; admits = old.admits } in
    let g1 = reindex_key (set_node g idx kept) idx old.key node.key in
    let left =
      if same_key old.key node.key then g1.live_by_key else drop_key g1.live_by_key old.key idx in
    record g1 { live_by_key = join_live left node.key idx }

-- One dependency of the loop at the end of `upsert_inner`.
unfoldable pub link_dependency : MemoryGraph → ℕ → Kind → Bool → List ℕ → MemoryGraph
link_dependency g idx kind dead dep = elim (Dict.get g.by_id dep) [
  | none ↦ g
  | some dep_idx ↦
      let linked = add_edge g idx dep_idx (if kind_eq kind claim then supports else derived_from) in
      if dead
      then linked
      else set_meta linked dep_idx (record (meta_at linked dep_idx) { superseded_source = false })
]

unfoldable pub link_dependencies : MemoryGraph → ℕ → Kind → Bool → List (List ℕ) → MemoryGraph
link_dependencies g idx kind dead [] = g
link_dependencies g idx kind dead (dep ∷ deps) =
    link_dependencies (link_dependency g idx kind dead dep) idx kind dead deps

-- `upsert_inner` behind the grounding rule: the graph, the index and the clock.
unfoldable pub place : MemoryGraph → Node → MemoryGraph × ℕ
place g node = elim (Dict.get g.by_id node.id) [
  | none ↦ (insert_new g node, length g.nodes)
  | some idx ↦
      let changed = not (bytes_eq (fingerprint (node_at g idx)) (fingerprint node)) in
      let g' = replace_node g idx node in (if changed then (invalidate g' idx false).0 else g', idx)
]

-- The stamp of a node that passed the rule.
abbrev pub stamped : Node → ℕ → Node
stamped node now = record node { meta = record node.meta { grounded = true }; timestamp = now }

unfoldable pub finish : MemoryGraph → ℕ → MemoryGraph
finish g idx =
    let node = node_at g idx in
    bump (link_dependencies g idx node.kind (is_superseded node.status) node.dependencies)

unfoldable pub upsert :
    MemoryGraph → Node → (List ℕ → Bool) → Clock → Result (MemoryGraph × ℕ × Clock)
upsert g node has_span clock = elim (require_grounding g node has_span) [
  | err e ↦ err e
  | ok _ ↦
      let (clock', now) = tick clock in
      let p = place g (stamped node now) in ok (finish p.0 p.1, p.1, clock')
]

unfoldable pub restore_edge : MemoryGraph → List ℕ → List ℕ → EdgeType → MemoryGraph
restore_edge g src dst kind = elim (Dict.get g.by_id src) [
  | none ↦ g
  | some s ↦ elim (Dict.get g.by_id dst) [ none ↦ g | some d ↦ add_edge g s d kind ]
]
