-- ===== src/Merkle/Ascent.antt =====
-- src/merkle.rs: the way from a leaf up along a proof, next to the tree: where both end in one digest
-- they are the same all the way down, or two messages have one digest.
use subnext.Prelude.{
  ℕ, ◌≡◌, ◌≢◌, sym, ap, ◌∙◌, ◌⊎◌, ⊎_elim, inl, inr, List, [], ◌∷◌, length, get_or, arith,
}
use subnext.Hash.Stream.{sha256}
use subnext.Hash.Tagged.{
  frame, tagged-frame, frame-injective, sha256-cases, Collide, Fits, length-tagged,
}
use subnext.Merkle.{Entry, Step, Side, left, right, leaf_tag, node_tag, leaf_digest, node_digest}
use subnext.Merkle.Tree.{Tree, leaf, node, digest_of, Holds, EachLeaf}

-- The way from a leaf up along the steps of a proof; the siblings are known by their digests only.
pub data Climb : Type 0 where
  start : List ℕ → List ℕ → Climb
  beside : Side → Climb → List ℕ → Climb

abbrev pub origin : Climb → Entry
origin (start id content) = (id, content)
origin (beside _ p _) = origin p

unfoldable pub climb_digest : Climb → List ℕ
climb_digest (start id content) = leaf_digest id content
climb_digest (beside right p sibling) = node_digest (climb_digest p) sibling
climb_digest (beside left p sibling) = node_digest sibling (climb_digest p)

unfoldable pub along : Climb → List Step → Climb
along p [] = p
along p (s ∷ steps) = along (beside s.side p s.sibling) steps

-- The message that is hashed at the top.
unfoldable pub climb_message : Climb → List ℕ
climb_message (start id content) = frame leaf_tag (id ∷ content ∷ [])
climb_message (beside right p sibling) = frame node_tag (climb_digest p ∷ sibling ∷ [])
climb_message (beside left p sibling) = frame node_tag (sibling ∷ climb_digest p ∷ [])

pub tree_message : Tree → List ℕ
tree_message (leaf id content) = frame leaf_tag (id ∷ content ∷ [])
tree_message (node l r) = frame node_tag (digest_of l ∷ digest_of r ∷ [])

-- At some node on the way down, the message that the proof hashes and the one that the tree hashes
-- differ and have one digest.
pub data Clash : Climb → Tree → Type 0 where
  at_top : (p : Climb) (t : Tree) → Collide (climb_message p) (tree_message t) → Clash p t
  in_left :
      (p : Climb) (sibling : List ℕ) (l r : Tree)
      → Clash p l
      → Clash (beside right p sibling) (node l r)
  in_right :
      (p : Climb) (sibling : List ℕ) (l r : Tree)
      → Clash p r
      → Clash (beside left p sibling) (node l r)

pub climb_digest-message : (p : Climb) → climb_digest p ≡ sha256 (climb_message p)
unfolding climb_digest climb_message leaf_digest node_digest
climb_digest-message (start id content) = tagged-frame leaf_tag (id ∷ content ∷ [])
climb_digest-message (beside right p sibling) =
    tagged-frame node_tag (climb_digest p ∷ sibling ∷ [])
climb_digest-message (beside left p sibling) = tagged-frame node_tag (sibling ∷ climb_digest p ∷ [])

digest_of-message : (t : Tree) → digest_of t ≡ sha256 (tree_message t)
unfolding digest_of tree_message leaf_digest node_digest
digest_of-message (leaf id content) = tagged-frame leaf_tag (id ∷ content ∷ [])
digest_of-message (node l r) = tagged-frame node_tag (digest_of l ∷ digest_of r ∷ [])

Fits-of_32 : (d : List ℕ) → length d ≡ 32 → Fits d
Fits-of_32 d h = omega arith

pub leaf_digest-Fits : (id content : List ℕ) → Fits (leaf_digest id content)
unfolding leaf_digest
leaf_digest-Fits id content =
    Fits-of_32 (leaf_digest id content) (length-tagged leaf_tag (id ∷ content ∷ []))

pub climb_digest-Fits : (p : Climb) → Fits (climb_digest p)
unfolding climb_digest leaf_digest node_digest
climb_digest-Fits (start id content) =
    Fits-of_32 (leaf_digest id content) (length-tagged leaf_tag (id ∷ content ∷ []))
climb_digest-Fits (beside right p s) =
    Fits-of_32 (node_digest (climb_digest p) s) (length-tagged node_tag (climb_digest p ∷ s ∷ []))
climb_digest-Fits (beside left p s) =
    Fits-of_32 (node_digest s (climb_digest p)) (length-tagged node_tag (s ∷ climb_digest p ∷ []))

digest_of-Fits : (t : Tree) → Fits (digest_of t)
unfolding digest_of leaf_digest node_digest
digest_of-Fits (leaf id content) =
    Fits-of_32 (leaf_digest id content) (length-tagged leaf_tag (id ∷ content ∷ []))
digest_of-Fits (node l r) =
    Fits-of_32 (node_digest (digest_of l) (digest_of r))
      (length-tagged node_tag (digest_of l ∷ digest_of r ∷ []))

-- The lengths of an entry and of a proof's siblings fit a u64.
abbrev pub EntryFits : Entry → Type 0
EntryFits e = Fits e.0 × Fits e.1

abbrev pub ClimbFits : Climb → Type 0
ClimbFits (start id content) = Fits id × Fits content
ClimbFits (beside side p sibling) = Fits sibling × ClimbFits p

-- Two tagged messages of two parts.
same_frame :
    (tag tag' a b a' b' : List ℕ)
    → Fits tag
    → Fits tag'
    → Fits a × Fits b
    → Fits a' × Fits b'
    → frame tag (a ∷ b ∷ []) ≡ frame tag' (a' ∷ b' ∷ [])
    → (tag ≡ tag') × (a ≡ a') × (b ≡ b')
same_frame tag tag' a b a' b' t t' f f' e =
    let (tags, parts) =
      frame-injective tag tag' (a ∷ b ∷ []) (a' ∷ b' ∷ []) t t' (f.0, (f.1, tt)) (f'.0, (f'.1, tt))
        e in
    (tags, cc parts, cc parts)

leaf_tag-ne-node_tag : leaf_tag ≢ node_tag
leaf_tag-ne-node_tag e =
    let twelfth : get_or leaf_tag 11 0 ≡ get_or node_tag 11 0 = ap (λ l. get_or l 11 0) e in
    absurd (omega arith)

pub leaf_tag-Fits : Fits leaf_tag
leaf_tag-Fits = omega arith

pub node_tag-Fits : Fits node_tag
node_tag-Fits = omega arith

same_message :
    (p : Climb) (t : Tree)
    → climb_digest p ≡ digest_of t
    → (climb_message p ≡ tree_message t) ⊎ Clash p t
same_message p t e =
    ⊎_elim inl (λ c. inr (at_top p t c))
      (sha256-cases (climb_message p) (tree_message t)
        (sym (climb_digest-message p) ∙ (e ∙ digest_of-message t)))

-- Equal digests above lead to equal digests below, down to the leaf.
pub agree :
    (p : Climb) (t : Tree)
    → ClimbFits p
    → EachLeaf EntryFits t
    → climb_digest p ≡ digest_of t
    → Holds (origin p) t ⊎ Clash p t
unfolding climb_message tree_message
agree (start id content) (leaf id' content') f g e =
    ⊎_elim
      (λ same.
        let (_, ids, contents) =
          same_frame leaf_tag leaf_tag id content id' content' leaf_tag-Fits leaf_tag-Fits f g
            same in
        inl (cc (ids, contents)))
      inr (same_message (start id content) (leaf id' content') e)
agree (start id content) (node l r) f g e =
    ⊎_elim
      (λ same. absurd (
        leaf_tag-ne-node_tag
          (same_frame leaf_tag node_tag id content (digest_of l) (digest_of r) leaf_tag-Fits
            node_tag-Fits f (digest_of-Fits l, digest_of-Fits r) same).0))
      inr (same_message (start id content) (node l r) e)
agree (beside right p s) (leaf id content) f g e =
    ⊎_elim
      (λ same. absurd (
        leaf_tag-ne-node_tag (
          sym
            (same_frame node_tag leaf_tag (climb_digest p) s id content node_tag-Fits leaf_tag-Fits
              (climb_digest-Fits p, f.0) g same).0)))
      inr (same_message (beside right p s) (leaf id content) e)
agree (beside left p s) (leaf id content) f g e =
    ⊎_elim
      (λ same. absurd (
        leaf_tag-ne-node_tag (
          sym
            (same_frame node_tag leaf_tag s (climb_digest p) id content node_tag-Fits leaf_tag-Fits
              (f.0, climb_digest-Fits p) g same).0)))
      inr (same_message (beside left p s) (leaf id content) e)
agree (beside right p s) (node l r) f g e =
    ⊎_elim
      (λ same.
        let (_, child, _) =
          same_frame node_tag node_tag (climb_digest p) s (digest_of l) (digest_of r) node_tag-Fits
            node_tag-Fits (climb_digest-Fits p, f.0) (digest_of-Fits l, digest_of-Fits r) same in
        ⊎_elim (λ h. inl (inl h)) (λ c. inr (in_left p s l r c)) (agree p l f.1 g.0 child))
      inr (same_message (beside right p s) (node l r) e)
agree (beside left p s) (node l r) f g e =
    ⊎_elim
      (λ same.
        let (_, _, child) =
          same_frame node_tag node_tag s (climb_digest p) (digest_of l) (digest_of r) node_tag-Fits
            node_tag-Fits (f.0, climb_digest-Fits p) (digest_of-Fits l, digest_of-Fits r) same in
        ⊎_elim (λ h. inl (inr h)) (λ c. inr (in_right p s l r c)) (agree p r f.1 g.1 child))
      inr (same_message (beside left p s) (node l r) e)
