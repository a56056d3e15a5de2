-- ===== src/Hash/Words.antt =====
-- src/hash.rs: 32-bit words, the constants, and `Sha256::compress`.
use subnext.Prelude.{
  ℕ, zero, suc, ◌+◌, ◌-◌, ◌*◌, ◌/◌, ◌%◌, ◌^◌, List, [], ◌∷◌, ◌++◌, bit_and, bit_or, bit_xor, get_or,
  set, replicate,
}

abbrev u32_mod : ℕ
u32_mod = 2 ^ 32

-- `u32::wrapping_add`
abbrev wrapping_add : ℕ → ℕ → ℕ
wrapping_add a b = (a + b) % u32_mod

-- `u32::rotate_right`, for 0 < n < 32
abbrev rotate_right : ℕ → ℕ → ℕ
rotate_right x n = bit_or (x / 2 ^ n) (x * 2 ^ (32 - n) % u32_mod)

-- `!x` on a u32
abbrev complement : ℕ → ℕ
complement x = u32_mod - 1 - x

-- `u32::from_be_bytes`
abbrev from_be_bytes : ℕ → ℕ → ℕ → ℕ → ℕ
from_be_bytes a b c d = ((a * 256 + b) * 256 + c) * 256 + d

-- The round constants `K`.
abbrev round_constants : List ℕ
round_constants =
    0x428a2f98 ∷ 0x71374491 ∷ 0xb5c0fbcf ∷ 0xe9b5dba5 ∷ 0x3956c25b ∷ 0x59f111f1 ∷ 0x923f82a4
    ∷ 0xab1c5ed5 ∷ 0xd807aa98 ∷ 0x12835b01 ∷ 0x243185be ∷ 0x550c7dc3 ∷ 0x72be5d74 ∷ 0x80deb1fe
    ∷ 0x9bdc06a7 ∷ 0xc19bf174 ∷ 0xe49b69c1 ∷ 0xefbe4786 ∷ 0x0fc19dc6 ∷ 0x240ca1cc ∷ 0x2de92c6f
    ∷ 0x4a7484aa ∷ 0x5cb0a9dc ∷ 0x76f988da ∷ 0x983e5152 ∷ 0xa831c66d ∷ 0xb00327c8 ∷ 0xbf597fc7
    ∷ 0xc6e00bf3 ∷ 0xd5a79147 ∷ 0x06ca6351 ∷ 0x14292967 ∷ 0x27b70a85 ∷ 0x2e1b2138 ∷ 0x4d2c6dfc
    ∷ 0x53380d13 ∷ 0x650a7354 ∷ 0x766a0abb ∷ 0x81c2c92e ∷ 0x92722c85 ∷ 0xa2bfe8a1 ∷ 0xa81a664b
    ∷ 0xc24b8b70 ∷ 0xc76c51a3 ∷ 0xd192e819 ∷ 0xd6990624 ∷ 0xf40e3585 ∷ 0x106aa070 ∷ 0x19a4c116
    ∷ 0x1e376c08 ∷ 0x2748774c ∷ 0x34b0bcb5 ∷ 0x391c0cb3 ∷ 0x4ed8aa4a ∷ 0x5b9cca4f ∷ 0x682e6ff3
    ∷ 0x748f82ee ∷ 0x78a5636f ∷ 0x84c87814 ∷ 0x8cc70208 ∷ 0x90befffa ∷ 0xa4506ceb ∷ 0xbef9a3f7
    ∷ 0xc67178f2 ∷ []

-- The eight working words, `self.state` and the variables `a` to `h` of `compress`.
pub record Words : Type 0 where
  pub a : ℕ
  pub b : ℕ
  pub c : ℕ
  pub d : ℕ
  pub e : ℕ
  pub f : ℕ
  pub g : ℕ
  pub h : ℕ

-- `INIT`
abbrev pub init_words : Words
init_words = record {
  a = 0x6a09e667;
  b = 0xbb67ae85;
  c = 0x3c6ef372;
  d = 0xa54ff53a;
  e = 0x510e527f;
  f = 0x9b05688c;
  g = 0x1f83d9ab;
  h = 0x5be0cd19;
}

-- `for (i, slot) in w.iter_mut().take(16).enumerate()`: the block as big-endian words.
load_words : ℕ → List ℕ → List ℕ
load_words zero block = []
load_words (suc n) (b0 ∷ b1 ∷ b2 ∷ b3 ∷ rest) = from_be_bytes b0 b1 b2 b3 ∷ load_words n rest
load_words (suc n) _ = []

-- The value that one round of `for i in 16..64` writes to `w[i]`.
schedule_word : List ℕ → ℕ → ℕ
schedule_word w i =
    let w15 = get_or w (i - 15) 0 in
    let w2 = get_or w (i - 2) 0 in
    let s0 = bit_xor (bit_xor (rotate_right w15 7) (rotate_right w15 18)) (w15 / 2 ^ 3) in
    let s1 = bit_xor (bit_xor (rotate_right w2 17) (rotate_right w2 19)) (w2 / 2 ^ 10) in
    wrapping_add (wrapping_add (wrapping_add (get_or w (i - 16) 0) s0) (get_or w (i - 7) 0)) s1

-- `for i in 16..64`, with `n` rounds left
extend_schedule : ℕ → ℕ → List ℕ → List ℕ
extend_schedule zero i w = w
extend_schedule (suc n) i w = extend_schedule n (i + 1) (set w i (schedule_word w i))

-- The body of `for i in 0..64`, at the constant `k` and the word `w`.
pub round : ℕ → ℕ → Words → Words
round k w s =
    let s1 = bit_xor (bit_xor (rotate_right s.e 6) (rotate_right s.e 11)) (rotate_right s.e 25) in
    let ch = bit_xor (bit_and s.e s.f) (bit_and (complement s.e) s.g) in
    let t1 = wrapping_add (wrapping_add (wrapping_add (wrapping_add s.h s1) ch) k) w in
    let s0 = bit_xor (bit_xor (rotate_right s.a 2) (rotate_right s.a 13)) (rotate_right s.a 22) in
    let maj = bit_xor (bit_xor (bit_and s.a s.b) (bit_and s.a s.c)) (bit_and s.b s.c) in
    let t2 = wrapping_add s0 maj in
    record {
      a = wrapping_add t1 t2;
      b = s.a;
      c = s.b;
      d = s.c;
      e = wrapping_add s.d t1;
      f = s.e;
      g = s.f;
      h = s.g;
    }

-- `for i in 0..64`, over the constants and the schedule side by side
rounds : List ℕ → List ℕ → Words → Words
rounds (k ∷ ks) (w ∷ ws) s = rounds ks ws (round k w s)
rounds _ _ s = s

-- The final addition into `self.state`.
add_words : Words → Words → Words
add_words s t = record {
  a = wrapping_add s.a t.a;
  b = wrapping_add s.b t.b;
  c = wrapping_add s.c t.c;
  d = wrapping_add s.d t.d;
  e = wrapping_add s.e t.e;
  f = wrapping_add s.f t.f;
  g = wrapping_add s.g t.g;
  h = wrapping_add s.h t.h;
}

unfoldable pub compress : Words → List ℕ → Words
unfolding load_words schedule_word extend_schedule round rounds add_words
compress state block =
    let w = extend_schedule 48 16 (load_words 16 block ++ replicate 48 0) in
    add_words state (rounds round_constants w state)
