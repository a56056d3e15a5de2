-- ===== src/Merkle.antt =====
-- src/merkle.rs: the Merkle tree over named objects, inclusion proofs and their verification.
-- An object id is its bytes and a digest is its 32 bytes.
pub mod Leaves
pub mod Canonical
pub mod Position
pub mod Levels
pub mod Inclusion
pub mod Tree
pub mod Ascent
pub mod Binding
mod Examples
use subnext.Prelude.{
  ℕ, zero, suc, ◌+◌, ◌-◌, ◌/◌, ◌%◌, Bool, true, false, ◌&&◌, Option, none, some, List, [], ◌∷◌, map,
  Ordering, length, get_elem?, leb, ltb, ◌==◌, if◌then◌else◌, ◌>>=◌,
}
use subnext.Prelude.Bytes.{cmp_bytes, bytes_eq, sort_by}
use subnext.Hash.Tagged.{tagged}

-- `LEAF_TAG` is "dcr:merkle:leaf", `NODE_TAG` is "dcr:merkle:node".
abbrev pub leaf_tag : List ℕ
leaf_tag = 100 ∷ 99 ∷ 114 ∷ 58 ∷ 109 ∷ 101 ∷ 114 ∷ 107 ∷ 108 ∷ 101 ∷ 58 ∷ 108 ∷ 101 ∷ 97 ∷ 102 ∷ []

abbrev pub node_tag : List ℕ
node_tag = 100 ∷ 99 ∷ 114 ∷ 58 ∷ 109 ∷ 101 ∷ 114 ∷ 107 ∷ 108 ∷ 101 ∷ 58 ∷ 110 ∷ 111 ∷ 100 ∷ 101 ∷ []

-- "dcr:merkle:empty"
abbrev pub empty_tag : List ℕ
empty_tag =
    100 ∷ 99 ∷ 114 ∷ 58 ∷ 109 ∷ 101 ∷ 114 ∷ 107 ∷ 108 ∷ 101 ∷ 58 ∷ 101 ∷ 109 ∷ 112 ∷ 116 ∷ 121 ∷ []

pub data Side : Type 0 where
  left right : Side

pub record Step : Type 0 where
  pub sibling : List ℕ
  pub side : Side

pub leaf_digest : List ℕ → List ℕ → List ℕ
leaf_digest object_id content = tagged leaf_tag (object_id ∷ content ∷ [])

pub node_digest : List ℕ → List ℕ → List ℕ
node_digest l r = tagged node_tag (l ∷ r ∷ [])

unfoldable pub empty_root : List ℕ
empty_root = tagged empty_tag []

abbrev pub Entry : Type 0
Entry = List ℕ × List ℕ

pub record MerkleTree : Type 0 where
  pub leaves : List Entry
  pub levels : List (List (List ℕ))

abbrev pub by_id : Entry → Entry → Ordering
by_id a b = cmp_bytes a.0 b.0

-- `leaves.dedup_by(|a, b| a.0 == b.0)`, behind the element that was kept last
pub dedup_from : Entry → List Entry → List Entry
dedup_from kept [] = []
dedup_from kept (e ∷ rest) = elim (bytes_eq e.0 kept.0) [
  | true ↦ dedup_from kept rest
  | false ↦ e ∷ dedup_from e rest
]

pub dedup_by_id : List Entry → List Entry
unfolding dedup_from
dedup_by_id [] = []
dedup_by_id (e ∷ rest) = e ∷ dedup_from e rest

-- The inner loop of `build`: neighbours are combined and an odd one goes up as it is.
pub next_level : List (List ℕ) → List (List ℕ)
next_level (a ∷ b ∷ rest) = node_digest a b ∷ next_level rest
next_level (a ∷ []) = a ∷ []
next_level [] = []

-- `while levels.last().len() > 1`, with fuel, from the last level so far
unfoldable pub build_levels : ℕ → List (List ℕ) → List (List (List ℕ))
build_levels zero level = level ∷ []
build_levels (suc fuel) level = elim (ltb 1 (length level)) [
  | true ↦ level ∷ build_levels fuel (next_level level)
  | false ↦ level ∷ []
]

abbrev pub base_level : List Entry → List (List ℕ)
base_level = map (λ e. leaf_digest e.0 e.1)

unfoldable pub sorted_leaves : List Entry → List Entry
unfolding sort_by dedup_by_id
sorted_leaves entries = dedup_by_id (sort_by by_id entries)

unfoldable pub build : List Entry → MerkleTree
build entries =
    let leaves = sorted_leaves entries in
    let base = base_level leaves in
    record { leaves = leaves; levels = build_levels (length base) base }

-- `self.levels.last().and_then(|level| level.first())`
unfoldable pub last_first : List (List (List ℕ)) → Option (List ℕ)
last_first [] = none
last_first (level ∷ []) = get_elem? level 0
last_first (level ∷ next ∷ rest) = last_first (next ∷ rest)

unfoldable pub root : MerkleTree → List ℕ
root t = elim (last_first t.levels) [ some d ↦ d | none ↦ empty_root ]

-- `base = if cmp == Greater { base } else { mid }`
pub next_base : List Entry → List ℕ → ℕ → ℕ → ℕ
next_base leaves id base mid = elim (get_elem? leaves mid) [
  | none ↦ base
  | some e ↦ elim (cmp_bytes e.0 id) [ Ordering.gt ↦ base | _ ↦ mid ]
]

-- The loop of `slice::binary_search_by`, with fuel: `size` candidates from `base` on.
pub search_loop : ℕ → List Entry → List ℕ → ℕ → ℕ → ℕ
search_loop zero leaves id base size = base
search_loop (suc fuel) leaves id base size = elim (ltb 1 size) [
  | true ↦
      let half = size / 2 in
      let mid = base + half in
      search_loop fuel leaves id (next_base leaves id base mid) (size - half)
  | false ↦ base
]

pub position : MerkleTree → List ℕ → Option ℕ
position t object_id =
    let base = search_loop (length t.leaves) t.leaves object_id 0 (length t.leaves) in
    do e ← get_elem? t.leaves base; if bytes_eq e.0 object_id then some base else none

-- The step that one round of the loop of `proof` pushes; `none` would be a panic of the indexing.
pub sibling_step : List (List ℕ) → ℕ → Option Step
sibling_step level index =
    if index % 2 == 0
    then (do d ← get_elem? level (index + 1); some (record { sibling = d; side = right }))
    else (do d ← get_elem? level (index - 1); some (record { sibling = d; side = left }))

-- The loop of `proof` over the levels.
pub proof_steps : List (List (List ℕ)) → ℕ → Option (List Step)
proof_steps [] index = some []
proof_steps (level ∷ levels) index = elim (leb (length level) 1) [
  | true ↦ some []
  | false ↦ elim (index == length level - 1 && length level % 2 == 1) [
    | true ↦ proof_steps levels (index / 2)
    | false ↦ do
      step ← sibling_step level index
      rest ← proof_steps levels (index / 2)
      some (step ∷ rest)
  ]
]

pub proof : MerkleTree → List ℕ → Option (List Step)
proof t object_id = do index ← position t object_id; proof_steps t.levels index

pub combine : List ℕ → Step → List ℕ
combine current step = elim step.side [
  | right ↦ node_digest current step.sibling
  | left ↦ node_digest step.sibling current
]

pub climb : List ℕ → List Step → List ℕ
unfolding combine
climb current [] = current
climb current (step ∷ steps) = climb (combine current step) steps

pub verify_proof : List ℕ → List ℕ → List Step → List ℕ → Bool
unfolding climb
verify_proof object_id content steps root =
    bytes_eq (climb (leaf_digest object_id content) steps) root
