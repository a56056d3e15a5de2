-- ===== src/Hash/Stream/Digest.antt =====
-- src/hash.rs: what `sha256` and a chunked run of the hasher return.
use subnext.Prelude.{
  ℕ, ◌+◌, ◌-◌, ◌*◌, ◌/◌, ◌%◌, ◌≡◌, refl, ap, sym, ◌∙◌, List, [], ◌∷◌, ◌++◌, foldl, append-nil,
  length, replicate, length-append, length-replicate, arith,
}
use mathlib.Core.List.{foldl-append, flatten}
use subnext.Hash.Words.{init_words}
use subnext.Hash.Stream.{Sha256, new, update, be64, words_bytes, finalize, sha256, u64_mod}
use subnext.Hash.Stream.Absorb.{Absorbed, feed, view, IsReady}
use subnext.Hash.Stream.Update.{update-Updates}
use subnext.Hash.Stream.Padding.{
  closing, pad, spec, feed-blocks, finalize_lem, new-IsReady, length-view, length-pending,
}

length-closing : (n bits : ℕ) → (n + length (closing (n % 64) bits)) % 64 ≡ 0
unfolding closing
length-closing n bits = omega (
  arith,
  length-append (replicate ((119 - n % 64) % 64) 0) (be64 bits),
  length-replicate {A = ℕ} ((119 - n % 64) % 64) 0,
)

-- The padded message is a whole number of blocks.
length-pad : (m : List ℕ) → length (pad m) ≡ 64 * (length (pad m) / 64)
unfolding pad
length-pad m = omega (
  arith,
  length-append m (closing (length m % 64) (length m * 8 % u64_mod)),
  length-closing (length m) (length m * 8 % u64_mod),
)

-- Equal views lead to equal digests.
finalize-eq_of_view :
    (h h' : Sha256)
    → IsReady h
    → IsReady h'
    → view h ≡ view h'
    → h.bits ≡ h'.bits
    → finalize h ≡ finalize h'
finalize-eq_of_view h h' r r' v e =
    let f : h.filled ≡ h'.filled =
      sym (length-view h r) ∙ (ap (λ (s : Absorbed). length s.pending) v ∙ length-view h' r') in
    finalize_lem h r
    ∙ (ap (λ s. words_bytes (foldl feed s (closing h.filled h.bits)).words) v
        ∙ (ap (λ n. words_bytes (foldl feed (view h') (closing n h.bits)).words) f
            ∙ (ap (λ n. words_bytes (foldl feed (view h') (closing h'.filled n)).words) e
                ∙ sym (finalize_lem h' r'))))

-- Any two splits of a message give the same digest: from every hasher between two calls, `update`
-- with `a` and then with `b` leads to the digest of `update` with `a ++ b`.
pub finalize-update_append :
    (h : Sha256) (a b : List ℕ)
    → IsReady h
    → finalize (update (update h a) b) ≡ finalize (update h (a ++ b))
finalize-update_append h a b r =
    let ua = update-Updates h a r in
    let ub = update-Updates (update h a) b ua.ready in
    let uab = update-Updates h (a ++ b) r in
    finalize-eq_of_view (update (update h a) b) (update h (a ++ b)) ub.ready uab.ready
      (ub.absorbs
        ∙ (ap (λ s. foldl feed s b) ua.absorbs
            ∙ (sym (foldl-append feed (view h) a b) ∙ sym uab.absorbs)))
      (omega (arith, ua.counts, ub.counts, uab.counts, length-append a b))

-- A hasher that is fed the chunks of a message one after another.
unfoldable pub update_all : Sha256 → List (List ℕ) → Sha256
update_all h [] = h
update_all h (c ∷ cs) = update_all (update h c) cs

finalize-update_all :
    (cs : List (List ℕ)) (h : Sha256) (a : List ℕ)
    → IsReady h
    → finalize (update_all (update h a) cs) ≡ finalize (update h (a ++ flatten cs))
unfolding update_all flatten
finalize-update_all [] h a r = ap (λ t. finalize (update h t)) (sym (append-nil a))
finalize-update_all (c ∷ cs) h a r =
    finalize-update_all cs (update h a) c (update-Updates h a r).ready
    ∙ finalize-update_append h a (c ++ flatten cs) r

sha256-eq : (m : List ℕ) → sha256 m ≡ finalize (update new m)
unfolding sha256
sha256-eq m = refl

-- A message in chunks: however it is cut, feeding the chunks one after another to a new hasher and
-- closing it gives `sha256` of the message.
pub sha256-flatten : (cs : List (List ℕ)) → finalize (update_all new cs) ≡ sha256 (flatten cs)
unfolding update_all flatten
sha256-flatten [] =
    let u = update-Updates new [] new-IsReady in
    finalize-eq_of_view new (update new []) new-IsReady u.ready (sym u.absorbs)
      (omega (arith, u.counts))
    ∙ sym (sha256-eq [])
sha256-flatten (c ∷ cs) =
    finalize-update_all cs new c new-IsReady ∙ sym (sha256-eq (c ++ flatten cs))

-- The streaming hasher computes SHA-256 of the message: its bytes and the padding, compressed block
-- by block from the initial words.
pub sha256_refines : (m : List ℕ) → sha256 m ≡ spec m
unfolding spec pad
sha256_refines m =
    let h = update new m in
    let u = update-Updates new m new-IsReady in
    let none_yet : Absorbed = view new in
    let filled : h.filled ≡ length m % 64 =
      sym (length-view h u.ready)
      ∙ (ap (λ (s : Absorbed). length s.pending) u.absorbs
          ∙ (length-pending (view new) m (omega arith) ∙ omega arith)) in
    let count : h.bits ≡ length m * 8 % u64_mod = omega (arith, u.counts) in
    let fed : foldl feed (view h) (closing h.filled h.bits) ≡ foldl feed none_yet (pad m) =
      ap (λ s. foldl feed s (closing h.filled h.bits)) u.absorbs
      ∙ (sym (foldl-append feed none_yet m (closing h.filled h.bits))
          ∙ (ap (λ n. foldl feed none_yet (m ++ closing n h.bits)) filled
              ∙ ap (λ n. foldl feed none_yet (m ++ closing (length m % 64) n)) count)) in
    sha256-eq m
    ∙ finalize_lem h u.ready
    ∙ (ap (λ (s : Absorbed). words_bytes s.words) fed
        ∙ ap (λ (s : Absorbed). words_bytes s.words)
            (feed-blocks (length (pad m) / 64) init_words (pad m) (length-pad m)))
