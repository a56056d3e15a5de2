-- ===== src/Hash/Stream/Absorb.antt =====
-- src/hash.rs: the streaming hasher against a byte-at-a-time reference.
use subnext.Prelude.{
  ℕ, zero, suc, ◌+◌, ◌≤◌, ◌<◌, ◌≡◌, refl, ap, sym, ◌∙◌, List, [], ◌∷◌, ◌++◌, foldl, append-nil,
  append_assoc, length, set, take, drop, length-append, length-set, length-take, length-drop,
  take-append-drop, take-all, take-append, leb, ◌==◌, if◌then◌else◌, Bool-cases, inl, inr, arith,
}
use mathlib.Core.List.{foldl-append}
use subnext.Hash.Words.{Words, compress}
use subnext.Hash.Stream.{Sha256, copy_into, whole_blocks, write_byte, update_raw}

-- What the digest depends on: the chaining words and the bytes that wait for a full block.
pub record Absorbed : Type 0 where
  pub words : Words
  pub pending : List ℕ

unfoldable pub feed : Absorbed → ℕ → Absorbed
feed s b =
    let p = s.pending ++ b ∷ [] in
    if length p == 64
    then record { words = compress s.words p; pending = [] }
    else record { words = s.words; pending = p }

abbrev pub view : Sha256 → Absorbed
view h = record { words = h.state; pending = take h.filled h.block }

-- The state between calls: a whole block, with room for one more byte.
pub record IsReady (h : Sha256) : Type 0 where
  pub size : length h.block ≡ 64
  pub room : h.filled < 64

-- Bytes that do not complete the block only wait.
pub feed_short :
    (w : Words) (p xs : List ℕ)
    → length p + length xs < 64
    → foldl feed (record { words = w; pending = p }) xs ≡ record { words = w; pending = p ++ xs }
unfolding feed
feed_short w p [] h = rw (append-nil p)
feed_short w p (x ∷ xs) h =
    ground
      (arith, length-append p (x ∷ []), feed_short w (p ++ x ∷ []) xs, append_assoc p (x ∷ []) xs)

-- Bytes that complete the block are compressed with those that waited.
pub feed_full :
    (w : Words) (p xs : List ℕ)
    → length p + length xs ≡ 64
    → 0 < length xs
    → foldl feed (record { words = w; pending = p }) xs
      ≡ record { words = compress w (p ++ xs); pending = [] }
unfolding feed
feed_full w p [] h k = absurd (omega arith)
feed_full w p (x ∷ []) h k = ground (arith, length-append p (x ∷ []))
feed_full w p (x ∷ y ∷ xs) h k = ground (
  arith,
  length-append p (x ∷ []),
  feed_full w (p ++ x ∷ []) (y ∷ xs),
  append_assoc p (x ∷ []) (y ∷ xs),
)

take-set_next :
    (xs : List ℕ) (i v : ℕ) → i < length xs → take (suc i) (set xs i v) ≡ take i xs ++ v ∷ []
take-set_next [] i v h = absurd (omega arith)
take-set_next (x ∷ xs) zero v h = refl
take-set_next (x ∷ xs) (suc i) v h = ap (λ t. x ∷ t) (take-set_next xs i v (omega arith))

module _ (h : Sha256) (ready : IsReady h) (b : ℕ) where
  view-write_byte : view (write_byte h b) ≡ feed (view h) b
  unfolding write_byte feed
  view-write_byte =
      let size : length h.block ≡ 64 = ready.size in
      let next : take (suc h.filled) (set h.block h.filled b) ≡ take h.filled h.block ++ b ∷ [] =
        take-set_next h.block h.filled b (omega (arith, ready.room)) in
      let one : h.filled + 1 ≡ suc h.filled = omega arith in
      rw one (
        ground (
          arith,
          next,
          ready.room,
          length-append (take h.filled h.block) (b ∷ []),
          length-take h.filled h.block,
          length-set h.block h.filled b,
          take-all (suc h.filled) (set h.block h.filled b),
        ))

  pub write_byte-IsReady : IsReady (write_byte h b)
  unfolding write_byte
  write_byte-IsReady = ground (arith, length-set h.block h.filled b, ready.size, ready.room)

pub update_raw-IsReady : (h : Sha256) (xs : List ℕ) → IsReady h → IsReady (update_raw h xs)
unfolding update_raw
update_raw-IsReady h [] r = r
update_raw-IsReady h (x ∷ xs) r = update_raw-IsReady (write_byte h x) xs (write_byte-IsReady h r x)

pub view-update_raw :
    (h : Sha256) (xs : List ℕ) → IsReady h → view (update_raw h xs) ≡ foldl feed (view h) xs
unfolding update_raw
view-update_raw h [] r = refl
view-update_raw h (x ∷ xs) r =
    view-update_raw (write_byte h x) xs (write_byte-IsReady h r x)
    ∙ ap (λ s. foldl feed s xs) (view-write_byte h r x)

bits-update_raw : (h : Sha256) (xs : List ℕ) → (update_raw h xs).bits ≡ h.bits
unfolding update_raw write_byte
bits-update_raw h [] = refl
bits-update_raw h (x ∷ xs) = bits-update_raw (write_byte h x) xs ∙ ground arith

-- Copying into the block.
pub length-copy_into :
    (block : List ℕ) (at : ℕ) (piece : List ℕ)
    → at + length piece ≤ length block
    → length (copy_into block at piece) ≡ length block
length-copy_into block at piece h = omega (
  arith,
  length-append (take at block) (piece ++ drop (at + length piece) block),
  length-append piece (drop (at + length piece) block),
  length-take at block,
  length-drop (at + length piece) block,
)

pub take-copy_into :
    (block : List ℕ) (at n : ℕ) (piece : List ℕ)
    → at + length piece ≡ n
    → at ≤ length block
    → take n (copy_into block at piece) ≡ take at block ++ piece
take-copy_into block at n piece e h =
    rw (← append_assoc (take at block) piece (drop (at + length piece) block)) (
      take-append n (take at block ++ piece) (drop (at + length piece) block)
        (omega (arith, length-append (take at block) piece, length-take at block)))

-- The copy of a short rest into the empty block.
module _ (h : Sha256) (xs : List ℕ) (size : length h.block ≡ 64) (empty : h.filled ≡ 0) where
  stash : Sha256
  stash = record h { block = copy_into h.block 0 xs; filled = length xs }

  view-stash : length xs < 64 → view stash ≡ foldl feed (view h) xs
  unfolding stash
  view-stash lt =
      let waits : take (length xs) (copy_into h.block 0 xs) ≡ xs =
        take-copy_into h.block 0 (length xs) xs (omega arith) (omega arith) in
      rw (waits, empty, feed_short h.state [] xs (omega arith))

  stash-IsReady : length xs < 64 → IsReady stash
  unfolding stash
  stash-IsReady lt = record { size = length-copy_into h.block 0 xs (omega arith) ∙ size; room = lt }

-- One whole block at the front of the input.
feed_block :
    (h : Sha256) (xs : List ℕ)
    → h.filled ≡ 0
    → 64 ≤ length xs
    → foldl feed (view h) xs
      ≡ foldl feed (view (record h { state = compress h.state (take 64 xs) })) (drop 64 xs)
feed_block h xs e le =
    let parts : take 64 xs ++ drop 64 xs ≡ xs = take-append-drop 64 xs in
    let full =
      feed_full h.state [] (take 64 xs) (omega (arith, length-take 64 xs))
        (omega (arith, length-take 64 xs)) in
    ap (foldl feed (view h)) (sym parts)
    ∙ (foldl-append feed (view h) (take 64 xs) (drop 64 xs) ∙ rw (e, full) refl)

-- The loop over whole blocks, from an empty block, absorbs its input.
pub whole_blocks_lem :
    (fuel : ℕ) (h : Sha256) (xs : List ℕ)
    → length h.block ≡ 64
    → h.filled ≡ 0
    → length xs ≤ fuel
    → (view (whole_blocks fuel h xs) ≡ foldl feed (view h) xs)
      × IsReady (whole_blocks fuel h xs)
      × ((whole_blocks fuel h xs).bits ≡ h.bits)
unfolding whole_blocks stash
whole_blocks_lem fuel h [] s e f = (refl, record { size = s; room = omega arith }, refl)
whole_blocks_lem zero h (x ∷ xs) s e f = absurd (omega arith)
whole_blocks_lem (suc fuel) h (x ∷ xs) s e f = elim (Bool-cases (leb 64 (length (x ∷ xs)))) [
  | inl whole ↦
      rw (whole, whole_blocks, feed_block h (x ∷ xs) e (ground arith))
        (whole_blocks_lem fuel (record h { state = compress h.state (take 64 (x ∷ xs)) })
          (drop 64 (x ∷ xs)) s e (omega (arith, length-drop 64 (x ∷ xs))))
  | inr short ↦
      rw (short, whole_blocks)
        (
          view-stash h (x ∷ xs) s e (ground arith),
          stash-IsReady h (x ∷ xs) s e (ground arith),
          refl,
        )
]
