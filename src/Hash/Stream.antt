-- ===== src/Hash/Stream.antt =====
-- src/hash.rs: the streaming hasher `Sha256`. A `[u8; 64]` is a list of 64 numbers below 256.
pub mod Absorb
pub mod Update
pub mod Padding
pub mod Digest
use subnext.Prelude.{
  ℕ, zero, suc, ◌+◌, ◌-◌, ◌*◌, ◌/◌, ◌%◌, ◌^◌, min, Bool, true, false, not, List, [], ◌∷◌, ◌++◌,
  foldl, length, set, take, drop, replicate, ltb, leb, ◌==◌, if◌then◌else◌,
}
use subnext.Hash.Words.{Words, init_words, compress}

abbrev pub u64_mod : ℕ
u64_mod = 2 ^ 64

pub record Sha256 : Type 0 where
  pub state : Words
  pub block : List ℕ
  pub filled : ℕ
  pub bits : ℕ

abbrev pub new : Sha256
new = record { state = init_words; block = replicate 64 0; filled = 0; bits = 0 }

-- `block[at..at + piece.len()].copy_from_slice(piece)`
abbrev pub copy_into : List ℕ → ℕ → List ℕ → List ℕ
copy_into block at piece = take at block ++ (piece ++ drop (at + length piece) block)

-- `self.compress(&block); self.filled = 0`, where the block is full
unfoldable pub flush_full : Sha256 → Sha256
flush_full h =
    if h.filled == 64 then record h { state = compress h.state h.block; filled = 0 } else h

-- The part of `update` under `if self.filled > 0`: the hasher, and what is left of the input.
unfoldable pub fill_block : Sha256 → List ℕ → Sha256
unfolding flush_full
fill_block h bytes =
    let count = min (64 - h.filled) (length bytes) in
    flush_full (record h {
      block = copy_into h.block h.filled (take count bytes);
      filled = h.filled + count;
    })

abbrev pub fill_rest : Sha256 → List ℕ → List ℕ
fill_rest h bytes = drop (min (64 - h.filled) (length bytes)) bytes

-- `while rest.len() >= 64`, with fuel, then the copy of what is left into the block
unfoldable pub whole_blocks : ℕ → Sha256 → List ℕ → Sha256
whole_blocks fuel h [] = h
whole_blocks zero h (x ∷ rest) = record h {
  block = copy_into h.block 0 (x ∷ rest);
  filled = length (x ∷ rest);
}
whole_blocks (suc fuel) h (x ∷ rest) = elim (leb 64 (length (x ∷ rest))) [
  | true ↦
      whole_blocks fuel (record h { state = compress h.state (take 64 (x ∷ rest)) })
        (drop 64 (x ∷ rest))
  | false ↦ record h { block = copy_into h.block 0 (x ∷ rest); filled = length (x ∷ rest) }
]

unfoldable pub update : Sha256 → List ℕ → Sha256
update h bytes =
    let counted = record h { bits = (h.bits + length bytes * 8 % u64_mod) % u64_mod } in
    if ltb 0 h.filled
    then whole_blocks (length bytes) (fill_block counted bytes) (fill_rest counted bytes)
    else whole_blocks (length bytes) counted bytes

-- The body of the loop of `update_raw`.
unfoldable pub write_byte : Sha256 → ℕ → Sha256
unfolding flush_full
write_byte h byte =
    flush_full (record h { block = set h.block h.filled byte; filled = h.filled + 1 })

unfoldable pub update_raw : Sha256 → List ℕ → Sha256
unfolding write_byte
update_raw h bytes = foldl write_byte h bytes

-- `while self.filled != 56`, with fuel
unfoldable pub pad_zeros : ℕ → Sha256 → Sha256
pad_zeros zero h = h
pad_zeros (suc fuel) h = elim (h.filled == 56) [
  | true ↦ h
  | false ↦ pad_zeros fuel (update_raw h (0 ∷ []))
]

-- `u32::to_be_bytes`
abbrev pub be32 : ℕ → List ℕ
be32 x = x / 2 ^ 24 % 256 ∷ x / 2 ^ 16 % 256 ∷ x / 2 ^ 8 % 256 ∷ x % 256 ∷ []

-- `u64::to_be_bytes`
abbrev pub be64 : ℕ → List ℕ
be64 x = be32 (x / 2 ^ 32) ++ be32 x

-- The bytes of the final state words, in order.
unfoldable pub words_bytes : Words → List ℕ
words_bytes s =
    be32 s.a
    ++ (be32 s.b ++ (be32 s.c ++ (be32 s.d ++ (be32 s.e ++ (be32 s.f ++ (be32 s.g ++ be32 s.h))))))

-- A digest is the list of its 32 bytes.
unfoldable pub finalize : Sha256 → List ℕ
finalize h =
    let padded = pad_zeros 64 (update_raw h (0x80 ∷ [])) in
    words_bytes (update_raw padded (be64 h.bits)).state

unfoldable pub sha256 : List ℕ → List ℕ
unfolding update finalize fill_block whole_blocks update_raw pad_zeros words_bytes
sha256 bytes = finalize (update new bytes)
