-- ===== src/Nodes/Names.antt =====
-- src/nodes.rs: the persisted names of kinds, origins, statuses and edge types.
use subnext.Prelude.{
  ℕ, ◌≡◌, refl, sym, ap, ◌⊎◌, ◌↔◌, ⊎_elim, ◌∙◌, Option, none, some, some_eq, List, [], ◌∷◌,
  if◌then◌else◌, Bool-cases, inl, inr,
}
use subnext.Prelude.Bytes.{cmp_bytes, bytes_eq, bytes_eq_iff}
use subnext.Nodes.{
  Kind, find_kind, kind_parse, kind_as_str, all_kinds, Status, status_parse, status_as_str,
  EdgeType, edge_parse, edge_as_str, Origin, find_origin, origin_parse, origin_as_str, all_origins,
}

kind_parse_as_str : (k : Kind) → kind_parse (kind_as_str k) ≡ some k
unfolding kind_parse cmp_bytes
kind_parse_as_str Kind.evidence = refl
kind_parse_as_str _ = refl

find_kind_sound :
    (ks : List Kind) (text : List ℕ) (k : Kind) → find_kind ks text ≡ some k → kind_as_str k ≡ text
unfolding find_kind
find_kind_sound [] text k h = cc
find_kind_sound (x ∷ ks) text k h = elim (Bool-cases (bytes_eq (kind_as_str x) text)) [
  | inl same ↦ ap kind_as_str (sym (some_eq (rw (same, find_kind) at h))) ∙ bytes_eq_iff _ _ same
  | inr other ↦ find_kind_sound ks text k (rw (other, find_kind) at h)
]

origin_parse_as_str : (o : Origin) → origin_parse (origin_as_str o) ≡ some o
unfolding origin_parse cmp_bytes
origin_parse_as_str Origin.observed = refl
origin_parse_as_str _ = refl

find_origin_sound :
    (os : List Origin) (text : List ℕ) (o : Origin)
    → find_origin os text ≡ some o
    → origin_as_str o ≡ text
unfolding find_origin
find_origin_sound [] text o h = cc
find_origin_sound (x ∷ os) text o h = elim (Bool-cases (bytes_eq (origin_as_str x) text)) [
  | inl same ↦
      ap origin_as_str (sym (some_eq (rw (same, find_origin) at h))) ∙ bytes_eq_iff _ _ same
  | inr other ↦ find_origin_sound os text o (rw (other, find_origin) at h)
]

status_parse_as_str : (s : Status) → status_parse (status_as_str s) ≡ some s
unfolding status_parse status_as_str cmp_bytes
status_parse_as_str Status.fresh = refl
status_parse_as_str _ = refl

edge_parse_as_str : (e : EdgeType) → edge_parse (edge_as_str e) ≡ some e
unfolding edge_parse edge_as_str cmp_bytes
edge_parse_as_str EdgeType.supports = refl
edge_parse_as_str _ = refl

-- One test of a chain: the text passes it and the result is its name's, or the chain goes on.
chain {ℓ} :
    {A : Type ℓ} (text name : List ℕ) (a b : A) (rest : Option A)
    → (if bytes_eq text name then some a else rest) ≡ some b
    → (text ≡ name) × (a ≡ b) ⊎ (rest ≡ some b)
chain text name a b rest h = elim (Bool-cases (bytes_eq text name)) [
  | inl same ↦ inl (bytes_eq_iff text name same, some_eq (rw same at h))
  | inr other ↦ inr (rw other at h)
]

named {ℓ} :
    {A : Type ℓ} (as_str : A → List ℕ) (text : List ℕ) (a b : A)
    → (text ≡ as_str a) × (a ≡ b)
    → as_str b ≡ text
named as_str text a b (t, e) = ap as_str (sym e) ∙ sym t

status_parse_sound :
    (text : List ℕ) (s : Status) → status_parse text ≡ some s → status_as_str s ≡ text
unfolding status_parse status_as_str
status_parse_sound text s h =
    let n = λ (a : Status). named status_as_str text a s in
    ⊎_elim (n Status.fresh)
      (λ h1.
        ⊎_elim (n Status.stale)
          (λ h2.
            ⊎_elim (n Status.superseded)
              (λ h3.
                ⊎_elim (n Status.contradicted)
                  (λ h4. ⊎_elim (n Status.unresolved) (λ h5. cc h5) (chain text _ _ s none h4))
                  (chain text _ _ s _ h3))
              (chain text _ _ s _ h2))
          (chain text _ _ s _ h1))
      (chain text _ _ s _ h)

edge_parse_sound : (text : List ℕ) (e : EdgeType) → edge_parse text ≡ some e → edge_as_str e ≡ text
unfolding edge_parse edge_as_str
edge_parse_sound text e h =
    let n = λ (a : EdgeType). named edge_as_str text a e in
    ⊎_elim (n EdgeType.supports)
      (λ h1.
        ⊎_elim (n EdgeType.derived_from)
          (λ h2.
            ⊎_elim (n EdgeType.contradicts)
              (λ h3. ⊎_elim (n EdgeType.supersedes) (λ h4. cc h4) (chain text _ _ e none h3))
              (chain text _ _ e _ h2))
          (chain text _ _ e _ h1))
      (chain text _ _ e _ h)

-- A name parses to a value exactly where it is the name of that value: for kinds, origins, statuses
-- and edge types.
pub parse_iff_as_str :
    (text : List ℕ) (k : Kind) (o : Origin) (s : Status) (e : EdgeType)
    → ((kind_parse text ≡ some k) ↔ (kind_as_str k ≡ text))
      × ((origin_parse text ≡ some o) ↔ (origin_as_str o ≡ text))
      × ((status_parse text ≡ some s) ↔ (status_as_str s ≡ text))
      × ((edge_parse text ≡ some e) ↔ (edge_as_str e ≡ text))
parse_iff_as_str text k o s e = (
  (
    unfold kind_parse in find_kind_sound all_kinds text k,
    λ h. ap kind_parse (sym h) ∙ kind_parse_as_str k,
  ),
  (
    unfold origin_parse in find_origin_sound all_origins text o,
    λ h. ap origin_parse (sym h) ∙ origin_parse_as_str o,
  ),
  (status_parse_sound text s, λ h. ap status_parse (sym h) ∙ status_parse_as_str s),
  (edge_parse_sound text e, λ h. ap edge_parse (sym h) ∙ edge_parse_as_str e),
)
