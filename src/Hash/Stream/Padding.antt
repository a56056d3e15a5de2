-- ===== src/Hash/Stream/Padding.antt =====
-- src/hash.rs: `finalize` and `sha256` against the padded message of FIPS 180-4, block by block.
use subnext.Prelude.{
  ℕ, zero, suc, ◌+◌, ◌-◌, ◌*◌, ◌/◌, ◌%◌, ◌≤◌, ◌<◌, ◌≡◌, refl, ap, sym, ◌∙◌, List, [], ◌∷◌, ◌++◌,
  foldl, length, take, drop, replicate, length-append, length-take, length-drop, length-replicate,
  take-append-drop, ◌==◌, Bool-cases, inl, inr, arith,
}
use mathlib.Core.List.{foldl-append}
use subnext.Hash.Words.{Words, init_words, compress}
use subnext.Hash.Stream.{
  Sha256, new, write_byte, update_raw, pad_zeros, be64, words_bytes, finalize, u64_mod,
}
use subnext.Hash.Stream.Absorb.{
  Absorbed, feed, view, IsReady, feed_full, write_byte-IsReady, update_raw-IsReady, view-update_raw,
}

-- The padding of a message of which `filled` bytes stand in the last block: the end mark, zeros
-- up to the count, and the count.
unfoldable pub closing : ℕ → ℕ → List ℕ
closing filled bits = 0x80 ∷ (replicate ((119 - filled) % 64) 0 ++ be64 bits)

-- The padded message.
unfoldable pub pad : List ℕ → List ℕ
unfolding closing
pad m = m ++ closing (length m % 64) (length m * 8 % u64_mod)

-- `compress` over `n` blocks of 64 bytes
pub blocks : ℕ → Words → List ℕ → Words
blocks zero w xs = w
blocks (suc n) w xs = blocks n (compress w (take 64 xs)) (drop 64 xs)

-- The specification: the padded message, compressed block by block.
unfoldable pub spec : List ℕ → List ℕ
spec m = words_bytes (blocks (length (pad m) / 64) init_words (pad m))

-- Feeding whole blocks to an empty buffer.
pub feed-blocks :
    (n : ℕ) (w : Words) (xs : List ℕ)
    → length xs ≡ 64 * n
    → foldl feed (record { words = w; pending = [] }) xs
      ≡ record { words = blocks n w xs; pending = [] }
unfolding blocks
feed-blocks zero w [] h = refl
feed-blocks zero w (x ∷ xs) h = absurd (omega arith)
feed-blocks (suc n) w xs h =
    let s : Absorbed = record { words = w; pending = [] } in
    let full =
      feed_full w [] (take 64 xs) (omega (arith, length-take 64 xs))
        (omega (arith, length-take 64 xs)) in
    ap (foldl feed s) (sym (take-append-drop 64 xs))
    ∙ (foldl-append feed s (take 64 xs) (drop 64 xs)
        ∙ (ap (λ t. foldl feed t (drop 64 xs)) full
            ∙ feed-blocks n (compress w (take 64 xs)) (drop 64 xs)
                (omega (arith, length-drop 64 xs))))

-- How many bytes wait.
pub length-pending :
    (s : Absorbed) (xs : List ℕ)
    → length s.pending < 64
    → length (foldl feed s xs).pending ≡ (length s.pending + length xs) % 64
unfolding feed
length-pending s [] h = omega arith
length-pending s (x ∷ xs) h =
    ground (arith, length-append s.pending (x ∷ []), length-pending (feed s x) xs)

pub length-view : (h : Sha256) → IsReady h → length (view h).pending ≡ h.filled
length-view h r = omega (arith, length-take h.filled h.block, r.size, r.room)

filled-update_raw :
    (h : Sha256) (xs : List ℕ) → IsReady h → (update_raw h xs).filled ≡ (h.filled + length xs) % 64
filled-update_raw h xs r =
    sym (length-view (update_raw h xs) (update_raw-IsReady h xs r))
    ∙ (ap (λ (v : Absorbed). length v.pending) (view-update_raw h xs r)
        ∙ (length-pending (view h) xs (omega (arith, length-view h r, r.room))
            ∙ ap (λ t. (t + length xs) % 64) (length-view h r)))

-- The loop of `finalize` writes the zeros that are missing, and ends with 56 bytes in the block.
pad_zeros-eq :
    (fuel : ℕ) (h : Sha256)
    → IsReady h
    → (120 - h.filled) % 64 ≤ fuel
    → pad_zeros fuel h ≡ update_raw h (replicate ((120 - h.filled) % 64) 0)
unfolding pad_zeros update_raw
pad_zeros-eq zero h r le = let k : (120 - h.filled) % 64 ≡ 0 = omega arith in rw k
pad_zeros-eq (suc fuel) h r le = elim (Bool-cases (h.filled == 56)) [
  | inl done ↦ let k : (120 - h.filled) % 64 ≡ 0 = ground arith in rw (done, pad_zeros) (rw k)
  | inr more ↦
      let h1 = write_byte h 0 in
      let next : h1.filled ≡ (h.filled + 1) % 64 = filled-update_raw h (0 ∷ []) r in
      let k : (120 - h.filled) % 64 ≡ suc ((120 - h1.filled) % 64) = ground (arith, r.room) in
      rw (more, pad_zeros) (rw k (pad_zeros-eq fuel h1 (write_byte-IsReady h r 0) (omega arith)))
]

-- What `finalize` returns of any hasher between two calls: the digest of the bytes that it has
-- absorbed, followed by the padding.
pub finalize_lem :
    (h : Sha256)
    → IsReady h
    → finalize h ≡ words_bytes (foldl feed (view h) (closing h.filled h.bits)).words
unfolding finalize closing
finalize_lem h r =
    let h1 = update_raw h (0x80 ∷ []) in
    let r1 : IsReady h1 = update_raw-IsReady h (0x80 ∷ []) r in
    let z : List ℕ = replicate ((120 - h1.filled) % 64) 0 in
    let f1 : h1.filled ≡ (h.filled + 1) % 64 = filled-update_raw h (0x80 ∷ []) r in
    let k : (120 - h1.filled) % 64 ≡ (119 - h.filled) % 64 = omega (arith, r.room) in
    let v : view (update_raw (update_raw h1 z) (be64 h.bits))
        ≡ foldl feed (foldl feed (foldl feed (view h) (0x80 ∷ [])) z) (be64 h.bits) =
      view-update_raw (update_raw h1 z) (be64 h.bits) (update_raw-IsReady h1 z r1)
      ∙ ap (λ s. foldl feed s (be64 h.bits))
          (view-update_raw h1 z r1 ∙ ap (λ s. foldl feed s z) (view-update_raw h (0x80 ∷ []) r)) in
    ap (λ p. words_bytes (update_raw p (be64 h.bits)).state)
      (pad_zeros-eq 64 h1 r1 (omega (arith, r1.room)))
    ∙ (ap (λ (s : Absorbed). words_bytes s.words) v
        ∙ rw k (
            ap (λ (s : Absorbed). words_bytes s.words)
              (sym (
                foldl-append feed (feed (view h) 0x80) (replicate ((119 - h.filled) % 64) 0)
                  (be64 h.bits)))))

-- A hasher that has just been made.
pub new-IsReady : IsReady new
new-IsReady = record { size = refl; room = omega arith }

-- From every hasher between two calls the padding loop of `finalize` ends with 56 bytes in the
-- block: the 64 rounds of fuel are enough.
filled-pad_zeros : (h : Sha256) → IsReady h → (pad_zeros 64 (update_raw h (0x80 ∷ []))).filled ≡ 56
filled-pad_zeros h r =
    let h1 = update_raw h (0x80 ∷ []) in
    let r1 : IsReady h1 = update_raw-IsReady h (0x80 ∷ []) r in
    let k = (120 - h1.filled) % 64 in
    let zeros : List ℕ = replicate k 0 in
    ap (λ (s : Sha256). s.filled) (pad_zeros-eq 64 h1 r1 (omega (arith, r1.room)))
    ∙ (filled-update_raw h1 zeros r1 ∙ omega (arith, length-replicate {A = ℕ} k 0, r1.room))
