-- ===== src/Merkle/Binding.antt =====
-- src/merkle.rs: a proof that verifies against the root of a built tree speaks of an entry of the
-- tree, or it shows two messages with one digest.
use subnext.Prelude.{
  ℕ, ◌≡◌, ◌≢◌, refl, sym, ap, ◌∙◌, ◌⊎◌, ⊎_elim, inl, inr, true, Option, none, some, List, [], ◌∷◌,
  All, arith,
}
use subnext.Prelude.Bytes.{bytes_eq_iff, bytes_eq_refl}
use subnext.Hash.Tagged.{frame, tagged-frame, frame-injective, Collide, Fits}
use subnext.Merkle.{
  Entry, Step, Side, left, right, leaf_tag, node_tag, empty_tag, leaf_digest, empty_root, build,
  sorted_leaves, root, combine, climb, verify_proof,
}
use subnext.Merkle.Leaves.{
  lookup, IsSorted, sorted_leaves-IsSorted, lookup-sorted_leaves, All-sorted_leaves,
}
use subnext.Merkle.Canonical.{lookup-Below}
use subnext.Merkle.Tree.{
  Tree, Holds, tree_of, root_digest, root-build, In, Holds-In, EachLeaf-tree_of,
}
use subnext.Merkle.Ascent.{
  Climb, origin, climb_digest, along, climb_message, Clash, climb_digest-message, climb_digest-Fits,
  EntryFits, ClimbFits, leaf_tag-Fits, node_tag-Fits, agree, start, beside,
}

combine-beside :
    (p : Climb) (side : Side) (d : List ℕ)
    → combine (climb_digest p) (record { sibling = d; side = side })
      ≡ climb_digest (beside side p d)
unfolding combine climb_digest
combine-beside p right d = refl
combine-beside p left d = refl

climb-along :
    (p : Climb) (steps : List Step) → climb (climb_digest p) steps ≡ climb_digest (along p steps)
unfolding climb along combine
climb-along p [] = refl
climb-along p (s ∷ steps) =
    ap (λ d. climb d steps) (combine-beside p s.side s.sibling)
    ∙ climb-along (beside s.side p s.sibling) steps

origin-along : (p : Climb) (steps : List Step) → origin (along p steps) ≡ origin p
unfolding along
origin-along p [] = refl
origin-along p (s ∷ steps) = origin-along (beside s.side p s.sibling) steps

abbrev StepsFit : List Step → Type 0
StepsFit steps = All (λ s. Fits s.sibling) steps

along-ClimbFits :
    (p : Climb) (steps : List Step) → ClimbFits p → StepsFit steps → ClimbFits (along p steps)
unfolding along
along-ClimbFits p [] f g = f
along-ClimbFits p (s ∷ steps) f g = along-ClimbFits (beside s.side p s.sibling) steps (g.0, f) g.1

-- A leaf of the sorted list is found by its id.
lookup-In : (e : Entry) (es : List Entry) → IsSorted es → In e es → lookup e.0 es ≡ some e.1
unfolding lookup
lookup-In e [] s m = absurd m
lookup-In e (x ∷ es) s (inl h) =
    rw (ap (λ (t : Entry). t.0) h, bytes_eq_refl x.0) (ap (λ (t : Entry). some t.1) (sym h))
lookup-In e (x ∷ es) s (inr m) =
    let found = lookup-In e es s.1 m in
    ground (arith, found, bytes_eq_iff x.0 e.0, lookup-Below x.0 es s.0)

-- The message that the proof hashes last against what the root of the tree stands for.
abbrev pub RootClash : Climb → Option Tree → Type 0
RootClash p none = Collide (climb_message p) (frame empty_tag [])
RootClash p (some t) = Clash p t

empty_tag-Fits : Fits empty_tag
empty_tag-Fits = omega arith

climb_message-ne-empty : (p : Climb) → ClimbFits p → climb_message p ≢ frame empty_tag []
unfolding climb_message
climb_message-ne-empty (start id content) f e =
    cc
      (frame-injective leaf_tag empty_tag (id ∷ content ∷ []) [] leaf_tag-Fits empty_tag-Fits
        (f.0, (f.1, tt)) tt e).1
climb_message-ne-empty (beside right p s) f e =
    cc
      (frame-injective node_tag empty_tag (climb_digest p ∷ s ∷ []) [] node_tag-Fits empty_tag-Fits
        (climb_digest-Fits p, (f.0, tt)) tt e).1
climb_message-ne-empty (beside left p s) f e =
    cc
      (frame-injective node_tag empty_tag (s ∷ climb_digest p ∷ []) [] node_tag-Fits empty_tag-Fits
        (f.0, (climb_digest-Fits p, tt)) tt e).1

module _ (entries : List Entry) (q : Climb) (fits : All EntryFits entries)
    (climbs : ClimbFits q) where
  origin-lookup :
      (t : Tree)
      → tree_of entries ≡ some t
      → Holds (origin q) t
      → lookup (origin q).0 entries ≡ some (origin q).1
  origin-lookup t p h =
      sym (lookup-sorted_leaves (origin q).0 entries)
      ∙ lookup-In (origin q) (sorted_leaves entries) (sorted_leaves-IsSorted entries)
          (Holds-In entries t (origin q) p h)

  root_agree :
      (o : Option Tree)
      → tree_of entries ≡ o
      → climb_digest q ≡ root_digest o
      → (lookup (origin q).0 entries ≡ some (origin q).1) ⊎ RootClash q o
  unfolding root_digest empty_root
  root_agree none p e = inr (
    climb_message-ne-empty q climbs,
    sym (climb_digest-message q) ∙ (e ∙ tagged-frame empty_tag []),
  )
  root_agree (some t) p e =
      ⊎_elim (λ h. inl (origin-lookup t p h)) inr
        (agree q t climbs
          (EachLeaf-tree_of EntryFits entries t p (All-sorted_leaves EntryFits entries fits)) e)

-- Binding: where a proof of `id` and `content` verifies against the root of the tree built from
-- `entries`, the first entry with that id has that content (of entries with one id, the first is the one
-- that the tree keeps), or on the way from the root down the proof and the tree hash two different
-- messages to one digest. The ids, the contents and the siblings have lengths that fit 64 bits.
pub lookup-verify_proof :
    (entries : List Entry) (id content : List ℕ) (steps : List Step)
    → All EntryFits entries
    → EntryFits (id, content)
    → StepsFit steps
    → verify_proof id content steps (root (build entries)) ≡ true
    → (lookup id entries ≡ some content)
      ⊎ RootClash (along (start id content) steps) (tree_of entries)
unfolding verify_proof climb_digest
lookup-verify_proof entries id content steps fits fit siblings v =
    let p = start id content in
    let q = along p steps in
    let reached : climb (leaf_digest id content) steps ≡ root (build entries) =
      bytes_eq_iff _ _ v in
    let same : climb_digest q ≡ root_digest (tree_of entries) =
      sym (climb-along p steps) ∙ (reached ∙ root-build entries) in
    let from : origin q ≡ (id, content) = origin-along p steps in
    ⊎_elim
      (λ h. inl (
        ap (λ (e : Entry). lookup e.0 entries) (sym from)
        ∙ (h ∙ ap (λ (e : Entry). some e.1) from)))
      inr
      (root_agree entries q fits (along-ClimbFits p steps fit siblings) (tree_of entries) refl same)
