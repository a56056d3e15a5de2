-- ===== src/Container/Chain.antt =====
-- src/context_store.rs: the walk over the checkpoints, and what the digest of the last one stands for.
use subnext.Prelude.{
  ℕ, ◌+◌, ◌≡◌, refl, sym, subst, ◌∙◌, ◌⊎◌, inl, inr, true, ◌&&◌, Option, none, some, List, [], ◌∷◌,
  map, length, All, ◌==◌, arith,
}
use subnext.Prelude.Bytes.{codes, bytes_eq, bytes_eq_iff, bytes_eq_refl}
use subnext.Prelude.Results.{Result, ok, ◌>>◌, guard, guard-eq-ok}
use subnext.Hash.Tagged.{frame, Fits, Collide, tagged-injective}
use subnext.Merkle.{empty_root}
use subnext.Container.{Host, ContextError, chain_broken, Checkpoint}
use subnext.Container.Format.{zero_digest, body_bytes, compute_chain}

-- What a checkpoint has to name, behind `previous`.
abbrev pub parent_chain_of : Option Checkpoint → List ℕ
parent_chain_of none = zero_digest
parent_chain_of (some parent) = parent.chain

abbrev pub parent_root_of : Option Checkpoint → List ℕ
parent_root_of none = empty_root
parent_root_of (some parent) = parent.merkle_root

abbrev pub expected_generation : Option Checkpoint → ℕ
expected_generation none = 1
expected_generation (some parent) = parent.generation + 1

module _ (host : Host) where
  -- The loop of `verify_chain`.
  pub verify_from : Option Checkpoint → List Checkpoint → Result ContextError (Unit {0})
  unfolding compute_chain
  verify_from previous [] = ok tt
  verify_from previous (c ∷ rest) =
      let later = verify_from (some c) rest in
      do
        guard (c.generation == expected_generation previous) (chain_broken c.generation)
        guard
            (bytes_eq c.parent_chain (parent_chain_of previous)
              && bytes_eq c.parent_root (parent_root_of previous))
            (chain_broken c.generation)
        guard (bytes_eq c.chain (compute_chain host c)) (chain_broken c.generation)
        later

  unfoldable pub verify_chain : List Checkpoint → Result ContextError (Unit {0})
  unfolding verify_from
  verify_chain checkpoints = verify_from none checkpoints

  -- The checkpoint follows its parent.
  pub record IsNext (previous : Option Checkpoint) (c : Checkpoint) : Type 0 where
    pub generation : c.generation ≡ expected_generation previous
    pub parent_chain : c.parent_chain ≡ parent_chain_of previous
    pub parent_root : c.parent_root ≡ parent_root_of previous
    pub chain : c.chain ≡ compute_chain host c

  abbrev pub IsChain : Option Checkpoint → List Checkpoint → Type 0
  IsChain previous [] = Unit {0}
  IsChain previous (c ∷ rest) = IsNext previous c × IsChain (some c) rest

  -- The walk finds a chain, and nothing else passes it.
  verify_from-IsChain :
      (previous : Option Checkpoint) (cs : List Checkpoint)
      → verify_from previous cs ≡ ok tt
      → IsChain previous cs
  unfolding verify_from
  verify_from-IsChain previous [] h = tt
  verify_from-IsChain previous (c ∷ rest) h =
      let (generation, h1) =
        guard-eq-ok (c.generation == expected_generation previous) (chain_broken c.generation) _
          h in
      let (parents, h2) =
        guard-eq-ok
          (bytes_eq c.parent_chain (parent_chain_of previous)
            && bytes_eq c.parent_root (parent_root_of previous))
          (chain_broken c.generation) _ h1 in
      let (chain, h3) =
        guard-eq-ok (bytes_eq c.chain (compute_chain host c)) (chain_broken c.generation)
          (verify_from (some c) rest) h2 in
      (
        record {
          generation = ground arith;
          parent_chain = ground (arith, bytes_eq_iff c.parent_chain (parent_chain_of previous));
          parent_root = ground (arith, bytes_eq_iff c.parent_root (parent_root_of previous));
          chain = bytes_eq_iff _ _ chain;
        },
        verify_from-IsChain (some c) rest h3,
      )

  IsNext-passes :
      (previous : Option Checkpoint) (c : Checkpoint)
      → IsNext previous c
      → (c.generation == expected_generation previous ≡ true)
        × (bytes_eq c.parent_chain (parent_chain_of previous)
              && bytes_eq c.parent_root (parent_root_of previous)
            ≡ true)
        × (bytes_eq c.chain (compute_chain host c) ≡ true)
  IsNext-passes previous c h = (
    ground (arith, h.generation),
    ground (
      arith,
      h.parent_chain,
      h.parent_root,
      bytes_eq_refl (parent_chain_of previous),
      bytes_eq_refl (parent_root_of previous),
    ),
    subst (λ d. bytes_eq c.chain d ≡ true) h.chain (bytes_eq_refl c.chain),
  )

  pub IsChain-verify_from :
      (previous : Option Checkpoint) (cs : List Checkpoint)
      → IsChain previous cs
      → verify_from previous cs ≡ ok tt
  unfolding verify_from
  IsChain-verify_from previous [] h = refl
  IsChain-verify_from previous (c ∷ rest) (next, h) =
      let (generation, parents, chain) = IsNext-passes previous c next in
      let ih = IsChain-verify_from (some c) rest h in rw (generation, parents, chain) ih

  -- The digest that a history ends with.
  unfoldable pub tip : Option Checkpoint → List Checkpoint → List ℕ
  tip previous [] = parent_chain_of previous
  tip previous (c ∷ rest) = tip (some c) rest

  abbrev pub Sized : Checkpoint → Type 0
  Sized c = Fits c.parent_chain × Fits (body_bytes host c)

  -- The message whose digest is the chain digest of a checkpoint.
  unfoldable pub chain_message : Checkpoint → List ℕ
  chain_message c = frame (codes "dcr:chain") (c.parent_chain ∷ body_bytes host c ∷ [])

  -- At one place of the two histories, the messages of the two checkpoints collide.
  abbrev pub HistoriesCollide : List Checkpoint → List Checkpoint → Type 0
  HistoriesCollide [] ds = ⊥
  HistoriesCollide (c ∷ cs) [] = ⊥
  HistoriesCollide (c ∷ cs) (d ∷ ds) =
      Collide (chain_message c) (chain_message d) ⊎ HistoriesCollide cs ds

  abbrev SameHistory :
      Option Checkpoint → Option Checkpoint → List Checkpoint → List Checkpoint → Type 0
  SameHistory p q cs ds =
      ((parent_chain_of p ≡ parent_chain_of q)
        × (map (body_bytes host) cs ≡ map (body_bytes host) ds))
      ⊎ HistoriesCollide cs ds

  -- Two digests of checkpoints agree only where the parents' digests and the bodies do.
  chain-binding :
      (c d : Checkpoint)
      → Sized c
      → Sized d
      → compute_chain host c ≡ compute_chain host d
      → ((c.parent_chain ≡ d.parent_chain) × (body_bytes host c ≡ body_bytes host d))
        ⊎ Collide (chain_message c) (chain_message d)
  unfolding compute_chain chain_message
  chain-binding c d (fc, bc) (fd, bd) e =
      elim (tagged-injective (codes "dcr:chain") (codes "dcr:chain")
        (c.parent_chain ∷ body_bytes host c ∷ []) (d.parent_chain ∷ body_bytes host d ∷ [])
        (omega arith) (omega arith) (fc, (bc, tt)) (fd, (bd, tt)) e) [
          | inl (tag, parts) ↦ inl (cc, cc)
          | inr collision ↦ inr collision
        ]

  tip-binding :
      (p q : Option Checkpoint) (cs ds : List Checkpoint)
      → IsChain p cs
      → IsChain q ds
      → All Sized cs
      → All Sized ds
      → length cs ≡ length ds
      → tip p cs ≡ tip q ds
      → SameHistory p q cs ds
  unfolding tip
  tip-binding p q [] [] hc hd sc sd n e = inl (e, refl)
  tip-binding p q [] (d ∷ ds) hc hd sc sd n e = absurd (omega arith)
  tip-binding p q (c ∷ cs) [] hc hd sc sd n e = absurd (omega arith)
  tip-binding p q (c ∷ cs) (d ∷ ds) (nc, hc) (nd, hd) sc sd n e =
      elim (tip-binding (some c) (some d) cs ds hc hd sc.1 sd.1 (omega arith) e) [
        | inr collision ↦ inr (inr collision)
        | inl (chains, bodies) ↦
            elim (chain-binding c d sc.0 sd.0 (sym nc.chain ∙ (chains ∙ nd.chain))) [
              | inr collision ↦ inr (inl collision)
              | inl (parents, body) ↦ inl (sym nc.parent_chain ∙ (parents ∙ nd.parent_chain), cc)
            ]
      ]

  -- Two histories of one length that pass the walk and end with one chain digest, and whose parts have
  -- lengths that fit 64 bits, have the same bodies of checkpoints in the same order, or at one place of
  -- both the two checkpoints' own messages, of parent digest and body, differ and have one digest.
  pub history_binding :
      (cs ds : List Checkpoint)
      → verify_chain cs ≡ ok tt
      → verify_chain ds ≡ ok tt
      → All Sized cs
      → All Sized ds
      → length cs ≡ length ds
      → tip none cs ≡ tip none ds
      → (map (body_bytes host) cs ≡ map (body_bytes host) ds) ⊎ HistoriesCollide cs ds
  unfolding verify_chain
  history_binding cs ds hc hd sc sd n e =
      elim (tip-binding none none cs ds (verify_from-IsChain none cs hc)
        (verify_from-IsChain none ds hd) sc sd n e) [
          | inl (start, bodies) ↦ inl bodies
          | inr collision ↦ inr collision
        ]
