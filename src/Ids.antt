-- ===== src/Ids.antt =====
-- src/ids.rs: identifiers and the logical clock. A string is its UTF-8 bytes.
use subnext.Prelude.{
  ℕ, zero, suc, ◌+◌, ◌*◌, ◌/◌, ◌%◌, ◌^◌, List, [], ◌∷◌, ◌++◌, bit_xor, foldl, take, get_or,
}

abbrev pub u64_mod : ℕ
u64_mod = 2 ^ 64

unfoldable pub fnv1a : List ℕ → ℕ → ℕ
fnv1a bytes offset = foldl (λ hash byte. bit_xor hash byte * 0x100000001b3 % u64_mod) offset bytes

abbrev pub offset_a : ℕ
offset_a = 0xcbf29ce484222325

abbrev pub offset_b : ℕ
offset_b = 0x9e3779b97f4a7c15

-- "0123456789abcdef"
abbrev hex_digits : List ℕ
hex_digits = 48 ∷ 49 ∷ 50 ∷ 51 ∷ 52 ∷ 53 ∷ 54 ∷ 55 ∷ 56 ∷ 57 ∷ 97 ∷ 98 ∷ 99 ∷ 100 ∷ 101 ∷ 102 ∷ []

-- `{n:016x}`, from the last of `digits` places up
hex_places : ℕ → ℕ → List ℕ → List ℕ
hex_places zero n out = out
hex_places (suc digits) n out = hex_places digits (n / 16) (get_or hex_digits (n % 16) 0 ∷ out)

-- The parts, each followed by the separator 0x1f.
join_parts : List (List ℕ) → List ℕ
join_parts [] = []
join_parts (part ∷ parts) = part ++ (0x1f ∷ join_parts parts)

unfoldable pub digest : List (List ℕ) → ℕ → List ℕ
unfolding fnv1a hex_places join_parts
digest parts length =
    let buf = join_parts parts in
    take length (hex_places 16 (fnv1a buf offset_a) [] ++ hex_places 16 (fnv1a buf offset_b) [])

unfoldable pub make_id : List ℕ → List (List ℕ) → List ℕ
unfolding digest
make_id pre parts = pre ++ (95 ∷ digest parts 12)

pub record Clock : Type 0 where
  pub now : ℕ

-- `Clock::tick`: the clock, and the value that it returns.
abbrev pub tick : Clock → Clock × ℕ
tick c = let next = (c.now + 1) % u64_mod in (record { now = next }, next)

abbrev pub restore : Clock → ℕ → Clock
restore c value = record { now = value }
