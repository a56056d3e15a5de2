-- ===== src/Hash/Stream/Update.antt =====
-- src/hash.rs: `Sha256::update` absorbs its input, however the buffer stands.
use subnext.Prelude.{
  ℕ, ◌+◌, ◌-◌, ◌*◌, ◌%◌, ◌≤◌, ◌<◌, min, ◌≡◌, refl, ap, sym, ◌∙◌, List, [], ◌++◌, foldl, length,
  take, drop, length-take, length-drop, take-append-drop, take-all, drop-all, ltb, leb, Bool-cases,
  inl, inr, arith,
}
use mathlib.Core.List.{foldl-append}
use subnext.Hash.Words.{compress}
use subnext.Hash.Stream.{Sha256, copy_into, fill_block, fill_rest, whole_blocks, update, u64_mod}
use subnext.Hash.Stream.Absorb.{
  feed, view, IsReady, feed_short, feed_full, length-copy_into, take-copy_into, whole_blocks_lem,
}

-- `update` under `if self.filled > 0`
module _ (h : Sha256) (xs : List ℕ) (r : IsReady h) where
  copied : List ℕ → Sha256
  copied piece = record h {
    block = copy_into h.block h.filled piece;
    filled = h.filled + length piece;
  }

  view-copied :
      (piece : List ℕ)
      → view (copied piece) ≡ record { words = h.state; pending = take h.filled h.block ++ piece }
  unfolding copied
  view-copied piece = rw (
      take-copy_into h.block h.filled (h.filled + length piece) piece refl
        (omega (arith, r.size, r.room)))

  -- The input does not complete the block.
  fill_block_short :
      h.filled + length xs < 64
      → (view (fill_block h xs) ≡ foldl feed (view h) xs)
        × IsReady (fill_block h xs)
        × ((fill_block h xs).bits ≡ h.bits)
        × (fill_rest h xs ≡ [])
  unfolding fill_block copied
  fill_block_short lt =
      let count : min (64 - h.filled) (length xs) ≡ length xs = omega arith in
      let all : take (length xs) xs ≡ xs = take-all (length xs) xs (omega arith) in
      let same : fill_block h xs ≡ copied xs = rw (count, all) (ground arith) in
      rw (same, count)
        (
          view-copied xs
              ∙ sym (
                  feed_short h.state (take h.filled h.block) xs
                    (omega (arith, length-take h.filled h.block, r.size))),
          record {
            size = length-copy_into h.block h.filled xs (omega (arith, r.size)) ∙ r.size;
            room = lt;
          },
          refl,
          drop-all (length xs) xs (omega arith),
        )

  fill_block_full :
      64 ≤ h.filled + length xs
      → (view (fill_block h xs) ≡ foldl feed (view h) (take (64 - h.filled) xs))
        × (length (fill_block h xs).block ≡ 64)
        × ((fill_block h xs).filled ≡ 0)
        × ((fill_block h xs).bits ≡ h.bits)
        × (fill_rest h xs ≡ drop (64 - h.filled) xs)
  unfolding fill_block copied
  fill_block_full le =
      let count : min (64 - h.filled) (length xs) ≡ 64 - h.filled = omega (arith, r.room) in
      let piece = take (64 - h.filled) xs in
      let size : length piece ≡ 64 - h.filled =
        omega (arith, length-take (64 - h.filled) xs, r.room) in
      let flushed : fill_block h xs ≡ record {
        state = compress h.state (copied piece).block;
        block = (copied piece).block;
        filled = 0;
        bits = h.bits;
      } =
        rw count (ground (arith, r.room)) in
      let whole : (copied piece).block ≡ take h.filled h.block ++ piece =
        sym (
          take-all 64 (copied piece).block
            (omega (arith, length-copy_into h.block h.filled piece, r.size, r.room)))
        ∙ take-copy_into h.block h.filled 64 piece (omega (arith, r.room))
            (omega (arith, r.size, r.room)) in
      let fed =
        feed_full h.state (take h.filled h.block) piece
          (omega (arith, length-take h.filled h.block, r.size, r.room)) (omega (arith, r.room)) in
      rw (flushed, count)
        (
          rw (whole, fed) refl,
          length-copy_into h.block h.filled piece (omega (arith, r.size, r.room)) ∙ r.size,
          refl,
          refl,
          refl,
        )

-- What `update` does to a hasher: the bytes are absorbed one after another, and counted.
pub record Updates (h : Sha256) (xs : List ℕ) (h' : Sha256) : Type 0 where
  pub absorbs : view h' ≡ foldl feed (view h) xs
  pub ready : IsReady h'
  pub counts : h'.bits ≡ (h.bits + length xs * 8 % u64_mod) % u64_mod

-- The count is no part of the view.
counted : Sha256 → List ℕ → Sha256
counted h xs = record h { bits = (h.bits + length xs * 8 % u64_mod) % u64_mod }

update-eq_empty :
    (h : Sha256) (xs : List ℕ)
    → h.filled ≡ 0
    → update h xs ≡ whole_blocks (length xs) (counted h xs) xs
unfolding update counted
update-eq_empty h xs e = ground arith

update-eq_filled :
    (h : Sha256) (xs : List ℕ)
    → 0 < h.filled
    → update h xs
      ≡ whole_blocks (length xs) (fill_block (counted h xs) xs) (fill_rest (counted h xs) xs)
unfolding update counted
update-eq_filled h xs pos = ground arith

whole_blocks-nil : (fuel : ℕ) (h : Sha256) → whole_blocks fuel h [] ≡ h
unfolding whole_blocks
whole_blocks-nil fuel h = refl

pub update-Updates : (h : Sha256) (xs : List ℕ) → IsReady h → Updates h xs (update h xs)
unfolding counted
update-Updates h xs r =
    let r' : IsReady (counted h xs) = record { size = r.size; room = r.room } in
    elim (Bool-cases (ltb 0 h.filled)) [
      | inl filled ↦ elim (Bool-cases (leb 64 (h.filled + length xs))) [
        | inl full ↦
            let (absorbs, size, empty, counts, rest) =
              fill_block_full (counted h xs) xs r' (ground arith) in
            let n = 64 - h.filled in
            let (absorbs', ready', counts') =
              whole_blocks_lem (length xs) (fill_block (counted h xs) xs) (drop n xs) size empty
                (omega (arith, length-drop n xs)) in
            rw (update-eq_filled h xs (ground arith), rest)
              (record {
                absorbs =
                    absorbs'
                    ∙ (ap (λ v. foldl feed v (drop n xs)) absorbs
                        ∙ (sym (foldl-append feed (view h) (take n xs) (drop n xs))
                            ∙ ap (foldl feed (view h)) (take-append-drop n xs)));
                ready = ready';
                counts = counts' ∙ counts;
              })
        | inr short ↦
            let (absorbs, ready, counts, rest) =
              fill_block_short (counted h xs) xs r' (ground arith) in
            rw (update-eq_filled h xs (ground arith), rest, whole_blocks-nil)
              (record { absorbs = absorbs; ready = ready; counts = counts })
      ]
      | inr fresh ↦
          let (absorbs, ready, counts) =
            whole_blocks_lem (length xs) (counted h xs) xs r.size (ground arith) (omega arith) in
          rw (update-eq_empty h xs (ground arith))
            (record { absorbs = absorbs; ready = ready; counts = counts })
    ]
