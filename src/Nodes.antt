-- ===== src/Nodes.antt =====
-- src/nodes.rs: node kinds, statuses, edges and nodes. A string is its bytes; an `f32` or `f64` is
-- its bit pattern, since nothing here computes with one.
pub mod Names
mod Examples
use subnext.Prelude.{
  ℕ, Bool, true, false, not, ◌&&◌, ◌||◌, Option, none, some, List, [], ◌∷◌, ◌++◌, map, take, ◌==◌,
  if◌then◌else◌,
}
use subnext.Prelude.Bytes.{codes, cmp_bytes, bytes_eq, sort_by}
use subnext.Ids.{make_id}

pub data Kind : Type 0 where
  evidence claim calculation decision goal constraint open_question skill : Kind

abbrev pub all_kinds : List Kind
all_kinds =
    evidence ∷ claim ∷ calculation ∷ decision ∷ goal ∷ constraint ∷ open_question ∷ skill ∷ []

pub kind_as_str : Kind → List ℕ
kind_as_str evidence = codes "evidence"
kind_as_str claim = codes "claim"
kind_as_str calculation = codes "calculation"
kind_as_str decision = codes "decision"
kind_as_str goal = codes "goal"
kind_as_str constraint = codes "constraint"
kind_as_str open_question = codes "open_question"
kind_as_str skill = codes "skill"

-- `Kind::ALL.into_iter().find(|k| k.as_str() == text)`
pub find_kind : List Kind → List ℕ → Option Kind
find_kind [] text = none
find_kind (k ∷ ks) text = if bytes_eq (kind_as_str k) text then some k else find_kind ks text

pub kind_parse : List ℕ → Option Kind
unfolding find_kind kind_as_str
kind_parse text = find_kind all_kinds text

-- `&self.as_str()[..4]`
pub kind_prefix : Kind → List ℕ
unfolding kind_as_str
kind_prefix k = take 4 (kind_as_str k)

-- The derived equality of an enum compares its discriminants.
abbrev kind_index : Kind → ℕ
kind_index evidence = 0
kind_index claim = 1
kind_index calculation = 2
kind_index decision = 3
kind_index goal = 4
kind_index constraint = 5
kind_index open_question = 6
kind_index skill = 7

abbrev pub kind_eq : Kind → Kind → Bool
kind_eq a b = kind_index a == kind_index b

pub data Origin : Type 0 where
  observed externally_sourced computed inferred hypothetical : Origin

abbrev pub all_origins : List Origin
all_origins = observed ∷ externally_sourced ∷ computed ∷ inferred ∷ hypothetical ∷ []

pub origin_as_str : Origin → List ℕ
origin_as_str observed = codes "observed"
origin_as_str externally_sourced = codes "externally-sourced"
origin_as_str computed = codes "computed"
origin_as_str inferred = codes "inferred"
origin_as_str hypothetical = codes "hypothetical"

pub find_origin : List Origin → List ℕ → Option Origin
find_origin [] text = none
find_origin (o ∷ os) text = if bytes_eq (origin_as_str o) text then some o else find_origin os text

pub origin_parse : List ℕ → Option Origin
unfolding find_origin origin_as_str
origin_parse text = find_origin all_origins text

is_grounds : Origin → Bool
is_grounds observed = true
is_grounds externally_sourced = true
is_grounds computed = true
is_grounds inferred = false
is_grounds hypothetical = false

pub data Status : Type 0 where
  fresh stale superseded contradicted unresolved : Status

pub status_as_str : Status → List ℕ
status_as_str fresh = codes "fresh"
status_as_str stale = codes "stale"
status_as_str superseded = codes "superseded"
status_as_str contradicted = codes "contradicted"
status_as_str unresolved = codes "unresolved"

pub status_parse : List ℕ → Option Status
status_parse text =
    if bytes_eq text (codes "fresh")
    then some fresh
    else if bytes_eq text (codes "stale")
    then some stale
    else if bytes_eq text (codes "superseded")
    then some superseded
    else if bytes_eq text (codes "contradicted")
    then some contradicted
    else if bytes_eq text (codes "unresolved")
    then some unresolved
    else none

abbrev status_index : Status → ℕ
status_index fresh = 0
status_index stale = 1
status_index superseded = 2
status_index contradicted = 3
status_index unresolved = 4

abbrev pub status_eq : Status → Status → Bool
status_eq a b = status_index a == status_index b

abbrev pub is_superseded : Status → Bool
is_superseded s = status_eq s superseded

abbrev pub is_live : Status → Bool
is_live fresh = true
is_live stale = false
is_live superseded = false
is_live contradicted = true
is_live unresolved = true

pub data EdgeType : Type 0 where
  supports derived_from contradicts supersedes : EdgeType

pub edge_as_str : EdgeType → List ℕ
edge_as_str supports = codes "supports"
edge_as_str derived_from = codes "derived-from"
edge_as_str contradicts = codes "contradicts"
edge_as_str supersedes = codes "supersedes"

pub edge_parse : List ℕ → Option EdgeType
edge_parse text =
    if bytes_eq text (codes "supports")
    then some supports
    else if bytes_eq text (codes "derived-from")
    then some derived_from
    else if bytes_eq text (codes "contradicts")
    then some contradicts
    else if bytes_eq text (codes "supersedes")
    then some supersedes
    else none

abbrev pub is_dependency : EdgeType → Bool
is_dependency supports = true
is_dependency derived_from = true
is_dependency contradicts = false
is_dependency supersedes = false

abbrev pub edge_index : EdgeType → ℕ
edge_index supports = 0
edge_index derived_from = 1
edge_index contradicts = 2
edge_index supersedes = 3

pub record Edge : Type 0 where
  pub src : ℕ
  pub dst : ℕ
  pub kind : EdgeType

abbrev pub edge_eq : Edge → Edge → Bool
edge_eq a b = a.src == b.src && (a.dst == b.dst && edge_index a.kind == edge_index b.kind)

pub record Derivation : Type 0 where
  pub name : List ℕ
  pub inputs : List (List ℕ × ℕ)

pub record NodeMeta : Type 0 where
  pub corrective : Bool
  pub grounded : Bool
  pub superseded_by : Option (List ℕ)
  pub supersedes : List (List ℕ)
  pub contradicts : List (List ℕ)
  pub superseded_source : Bool
  pub corrected_by : List (List ℕ)
  pub corroborations : ℕ
  pub l0_reads : ℕ
  pub l0_yield : ℕ
  pub deescalated : Bool
  pub derivation : Option Derivation
  pub source : Option (List ℕ)

pub record L0Sizes : Type 0 where
  pub key : ℕ × ℕ
  pub raw_tokens : ℕ
  pub rendered_cost : ℕ

pub record LevelCache : Type 0 where
  pub l1 : Option (List ℕ)
  pub l2 : Option (List ℕ)
  pub l3 : Option ℕ
  pub l0_sizes : Option L0Sizes

pub record Node : Type 0 where
  pub id : List ℕ
  pub kind : Kind
  pub origin : Origin
  pub value : List ℕ
  pub source_spans : List (List ℕ)
  pub dependencies : List (List ℕ)
  pub confidence : ℕ
  pub timestamp : ℕ
  pub status : Status
  pub key : Option (List ℕ)
  pub level_cache : LevelCache
  pub meta : NodeMeta
  pub reads : ℕ
  pub admits : ℕ

-- `join(",")`
unfoldable pub join_comma : List (List ℕ) → List ℕ
join_comma [] = []
join_comma (a ∷ []) = a
join_comma (a ∷ b ∷ rest) = a ++ (44 ∷ join_comma (b ∷ rest))

unfoldable pub fingerprint : Node → List ℕ
unfolding kind_as_str join_comma sort_by make_id
fingerprint n = make_id (codes "fp") (
    kind_as_str n.kind
    ∷ n.value
    ∷ join_comma (sort_by cmp_bytes n.dependencies)
    ∷ join_comma (sort_by cmp_bytes n.source_spans)
    ∷ [])

abbrev pub is_empty {ℓ} : {A : Type ℓ} → List A → Bool
is_empty [] = true
is_empty (_ ∷ _) = false

abbrev pub is_grounded : Node → Bool
is_grounded n = not (is_empty n.source_spans) || not (is_empty n.dependencies)

pub record NewNode : Type 0 where
  pub kind : Kind
  pub origin : Origin
  pub value : List ℕ
  pub source_spans : List (List ℕ)
  pub dependencies : List (List ℕ)
  pub confidence : ℕ
  pub key : Option (List ℕ)
  pub meta : NodeMeta

abbrev pub default_meta : NodeMeta
default_meta = record {
  corrective = false;
  grounded = false;
  superseded_by = none;
  supersedes = [];
  contradicts = [];
  superseded_source = false;
  corrected_by = [];
  corroborations = 0;
  l0_reads = 0;
  l0_yield = 0;
  deescalated = false;
  derivation = none;
  source = none;
}

abbrev pub default_cache : LevelCache
default_cache = record { l1 = none; l2 = none; l3 = none; l0_sizes = none }

-- `1.0_f32`
abbrev one_f32 : ℕ
one_f32 = 0x3f800000

abbrev pub new_node : Kind → List ℕ → NewNode
new_node kind value = record {
  kind = kind;
  origin = observed;
  value = value;
  source_spans = [];
  dependencies = [];
  confidence = one_f32;
  key = none;
  meta = default_meta;
}

abbrev unwrap_or_empty : Option (List ℕ) → List ℕ
unwrap_or_empty none = []
unwrap_or_empty (some text) = text

abbrev initial_status : Kind → Status
initial_status k = if kind_eq k open_question then unresolved else fresh

unfoldable pub build_node : NewNode → Node
unfolding kind_as_str join_comma make_id
build_node n = record {
  id =
      make_id (kind_prefix n.kind)
        (kind_as_str n.kind ∷ unwrap_or_empty n.key ∷ n.value ∷ join_comma n.source_spans ∷ []);
  kind = n.kind;
  origin = n.origin;
  value = n.value;
  source_spans = n.source_spans;
  dependencies = n.dependencies;
  confidence = n.confidence;
  timestamp = 0;
  status = initial_status n.kind;
  key = n.key;
  level_cache = default_cache;
  meta = n.meta;
  reads = 0;
  admits = 0;
}
