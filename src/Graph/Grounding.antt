-- ===== src/Graph/Grounding.antt =====
-- src/graph.rs: what the grounding rule of `upsert` lets in.
use subnext.Prelude.{
  ◌≡◌, refl, sym, ap, ◌∙◌, ◌↔◌, ◌⊎◌, ℕ, Bool, true, false, not, ◌&&◌, ◌||◌, List, [], ◌∷◌,
  if◌then◌else◌, arith, some, All, Option-cases, Bool-cases, List-cases, inl, inr,
}
use mathlib.Core.List.Memᴰ.{Memᴰ, head, tail}
use subnext.Prelude.Dict.{get}
use subnext.Nodes.{Node, kind_eq, evidence, skill, is_empty}
use subnext.Graph.State.{MemoryGraph, node_at}
use subnext.Graph.Upsert.{
  Result, ok, err, has_artifact, missing_spans, any_reaches, reaches_evidence, is_blank,
  require_grounding,
}

-- The store has every span of the list.
unfoldable all_known : (List ℕ → Bool) → List (List ℕ) → Bool
all_known has_span [] = true
all_known has_span (s ∷ ss) = has_span s && all_known has_span ss

-- The rule as one Boolean: a skill names its artifact; any other node cites spans that the
-- store has, and it cites one at least, unless it is derived, no evidence, and has a dependency that
-- reaches evidence.
unfoldable has_provenance : MemoryGraph → Node → (List ℕ → Bool) → Bool
unfolding all_known
has_provenance g node has_span =
    if kind_eq node.kind skill
    then has_artifact node.meta.source
    else all_known has_span node.source_spans
      && (not (is_empty node.source_spans)
          || not (kind_eq node.kind evidence) && any_reaches g node.dependencies)

all_known-missing :
    (has_span : List ℕ → Bool) (ss : List (List ℕ))
    → all_known has_span ss ≡ is_empty (missing_spans has_span ss)
unfolding all_known missing_spans
all_known-missing has_span [] = refl
all_known-missing has_span (s ∷ ss) = ground (arith, all_known-missing has_span ss)

any_reaches-nil : (g : MemoryGraph) → any_reaches g [] ≡ false
unfolding any_reaches
any_reaches-nil g = refl

is_ok : Result (Unit {0}) → Bool
is_ok (ok u) = true
is_ok (err e) = false

is_ok-eq : (r : Result (Unit {0})) → is_ok r ≡ true → r ≡ ok tt
unfolding is_ok
is_ok-eq (ok tt) h = refl
is_ok-eq (err e) h = cc

is_ok-require_grounding :
    (g : MemoryGraph) (node : Node) (has_span : List ℕ → Bool)
    → is_ok (require_grounding g node has_span) ≡ has_provenance g node has_span
unfolding is_ok require_grounding has_provenance
is_ok-require_grounding g node has_span =
    ground (arith, all_known-missing has_span node.source_spans, any_reaches-nil g)

accepted_iff :
    (g : MemoryGraph) (node : Node) (has_span : List ℕ → Bool)
    → (require_grounding g node has_span ≡ ok tt) ↔ (has_provenance g node has_span ≡ true)
unfolding is_ok
accepted_iff g node has_span = (
  λ h. sym (is_ok-require_grounding g node has_span) ∙ ap is_ok h,
  λ h. is_ok-eq (require_grounding g node has_span) (is_ok-require_grounding g node has_span ∙ h),
)

-- A node that grounds those that depend on it: evidence, or a node with spans of its own or with the flag
-- `grounded`.
unfoldable pub Grounds : Node → Type 0
Grounds n =
    (kind_eq n.kind evidence ≡ true)
    ⊎ ((is_empty n.source_spans ≡ false) ⊎ (n.meta.grounded ≡ true))

-- The dependency `id` is in the graph and grounds.
pub record IsGround (g : MemoryGraph) (id : List ℕ) : Type 0 where
  pub idx : ℕ
  pub there : get g.by_id id ≡ some idx
  pub grounds : Grounds (node_at g idx)

unfoldable pub SomeGround : MemoryGraph → List (List ℕ) → Type 0
SomeGround g ids = (id : List ℕ) × Memᴰ id ids × IsGround g id

-- The provenance of a node: an artifact that a skill names; or, of another node, spans that the store has;
-- or, of a node that is no evidence either and cites no span, a dependency that grounds.
pub data HasProvenance (g : MemoryGraph) (node : Node) (has_span : List ℕ → Bool) : Type 0 where
  names_artifact :
      (reference : List ℕ)
      → kind_eq node.kind skill ≡ true
      → node.meta.source ≡ some reference
      → is_blank reference ≡ false
      → HasProvenance g node has_span
  cites :
      (span : List ℕ) (spans : List (List ℕ))
      → kind_eq node.kind skill ≡ false
      → node.source_spans ≡ span ∷ spans
      → All (λ (s : List ℕ). has_span s ≡ true) (span ∷ spans)
      → HasProvenance g node has_span
  derives :
      kind_eq node.kind skill ≡ false
      → kind_eq node.kind evidence ≡ false
      → node.source_spans ≡ []
      → SomeGround g node.dependencies
      → HasProvenance g node has_span

all_known-All :
    (has_span : List ℕ → Bool) (ss : List (List ℕ))
    → all_known has_span ss ≡ true
    → All (λ (s : List ℕ). has_span s ≡ true) ss
unfolding all_known
all_known-All has_span [] h = tt
all_known-All has_span (s ∷ ss) h = (ground arith, all_known-All has_span ss (ground arith))

all_known-of_All :
    (has_span : List ℕ → Bool) (ss : List (List ℕ))
    → All (λ (s : List ℕ). has_span s ≡ true) ss
    → all_known has_span ss ≡ true
unfolding all_known
all_known-of_All has_span [] h = refl
all_known-of_All has_span (s ∷ ss) (h, hs) = rw (h, all_known-of_All has_span ss hs) refl

Grounds-of_flags :
    (n : Node)
    → kind_eq n.kind evidence || (not (is_empty n.source_spans) || n.meta.grounded) ≡ true
    → Grounds n
unfolding Grounds
Grounds-of_flags n h = elim (Bool-cases (kind_eq n.kind evidence)) [
  | inl sound ↦ inl sound
  | inr other ↦ elim (Bool-cases (is_empty n.source_spans)) [
    | inl bare ↦ inr (inr (ground arith))
    | inr cited ↦ inr (inl cited)
  ]
]

flags-of_Grounds :
    (n : Node)
    → Grounds n
    → kind_eq n.kind evidence || (not (is_empty n.source_spans) || n.meta.grounded) ≡ true
unfolding Grounds
flags-of_Grounds n (inl h) = ground arith
flags-of_Grounds n (inr (inl h)) = ground arith
flags-of_Grounds n (inr (inr h)) = ground arith

reaches_evidence-IsGround :
    (g : MemoryGraph) (id : List ℕ) → reaches_evidence g id ≡ true → IsGround g id
unfolding reaches_evidence
reaches_evidence-IsGround g id h = elim (Option-cases (get g.by_id id)) [
  | inl e ↦ absurd (ground arith)
  | inr (i, e) ↦ record {
    idx = i;
    there = e;
    grounds = Grounds-of_flags (node_at g i) (ground arith);
  }
]

reaches_evidence-of_IsGround :
    (g : MemoryGraph) (id : List ℕ) → IsGround g id → reaches_evidence g id ≡ true
unfolding reaches_evidence
reaches_evidence-of_IsGround g id x =
    let there : get g.by_id id ≡ some x.idx = x.there in
    let sound = flags-of_Grounds (node_at g x.idx) x.grounds in ground arith

any_reaches-SomeGround :
    (g : MemoryGraph) (ids : List (List ℕ)) → any_reaches g ids ≡ true → SomeGround g ids
unfolding any_reaches SomeGround
any_reaches-SomeGround g [] h = cc
any_reaches-SomeGround g (d ∷ ds) h = elim (Bool-cases (reaches_evidence g d)) [
  | inl ground_here ↦ (d, head refl, reaches_evidence-IsGround g d ground_here)
  | inr other ↦
      let (id, there, x) = any_reaches-SomeGround g ds (ground arith) in (id, tail there, x)
]

any_reaches-of_Mem :
    (g : MemoryGraph) (id : List ℕ) (ids : List (List ℕ))
    → Memᴰ id ids
    → reaches_evidence g id ≡ true
    → any_reaches g ids ≡ true
unfolding any_reaches
any_reaches-of_Mem g id [] there h = elim there [ ]
any_reaches-of_Mem g id (d ∷ ds) (head e) h = ground arith
any_reaches-of_Mem g id (d ∷ ds) (tail m) h = ground (arith, any_reaches-of_Mem g id ds m h)

has_provenance-HasProvenance :
    (g : MemoryGraph) (node : Node) (has_span : List ℕ → Bool)
    → has_provenance g node has_span ≡ true
    → HasProvenance g node has_span
unfolding has_provenance has_artifact all_known
has_provenance-HasProvenance g node has_span h = elim (Bool-cases (kind_eq node.kind skill)) [
  | inl capability ↦ elim (Option-cases node.meta.source) [
    | inl e ↦ absurd (ground arith)
    | inr (reference, e) ↦ names_artifact reference capability e (ground arith)
  ]
  | inr other ↦ elim (List-cases node.source_spans) [
    | inl e ↦
        derives other (ground arith) e (any_reaches-SomeGround g node.dependencies (ground arith))
    | inr (span, spans, e) ↦
        cites span spans other e (all_known-All has_span (span ∷ spans) (ground arith))
  ]
]

has_provenance-of_HasProvenance :
    (g : MemoryGraph) (node : Node) (has_span : List ℕ → Bool)
    → HasProvenance g node has_span
    → has_provenance g node has_span ≡ true
unfolding has_provenance has_artifact all_known SomeGround
has_provenance-of_HasProvenance g node has_span (names_artifact reference k e b) = rw (k, e, b) refl
has_provenance-of_HasProvenance g node has_span (cites span spans k e known) =
    rw (k, e, all_known-of_All has_span (span ∷ spans) known) refl
has_provenance-of_HasProvenance g node has_span (derives k v e (id, there, x)) =
    rw
      (
        k,
        v,
        e,
        any_reaches-of_Mem g id node.dependencies there (reaches_evidence-of_IsGround g id x),
      )
      refl

-- The rule accepts a node exactly where the node has provenance. A skill has it by a reference to its
-- artifact that is not blank. Any other node has it by the spans that it cites, all of which the store has,
-- or, where it is no evidence and cites none, by a dependency that is in the graph and is evidence, has
-- spans of its own, or has the flag `grounded`.
pub require_grounding_iff :
    (g : MemoryGraph) (node : Node) (has_span : List ℕ → Bool)
    → (require_grounding g node has_span ≡ ok tt) ↔ HasProvenance g node has_span
require_grounding_iff g node has_span =
    let accepted = accepted_iff g node has_span in
    (
      λ h. has_provenance-HasProvenance g node has_span (accepted.0 h),
      λ p. accepted.1 (has_provenance-of_HasProvenance g node has_span p),
    )
