-- ===== src/Spans/Slices.antt =====
-- src/spans.rs: what it uses of strings: slices by byte position, the count of characters, `trim`, and
-- the text of a number.
use subnext.Prelude.{
  ℕ, zero, suc, ◌+◌, ◌-◌, ◌/◌, ◌%◌, Bool, true, false, ◌&&◌, ◌||◌, List, [], ◌∷◌, ◌++◌, length,
  take, drop, ltb, leb, ◌==◌, if◌then◌else◌,
}

-- `&text[start..end]`
unfoldable pub slice {ℓ} : {A : Type ℓ} → List A → ℕ → ℕ → List A
slice text start end = take (end - start) (drop start text)

-- A byte that goes on a character.
abbrev is_continuation : ℕ → Bool
is_continuation c = leb 0x80 c && leb c 0xbf

-- `chars().count()`
unfoldable pub char_count : List ℕ → ℕ
char_count [] = 0
char_count (c ∷ s) = let rest = char_count s in if is_continuation c then rest else suc rest

-- The white space that UTF-8 writes with three bytes.
abbrev is_wide_space : ℕ → ℕ → ℕ → Bool
is_wide_space a b c =
    (a == 0xe1 && (b == 0x9a && c == 0x80))
    || (a == 0xe2
          && (b == 0x80 && (leb 0x80 c && leb c 0x8a || (c == 0xa8 || (c == 0xa9 || c == 0xaf))))
        || (a == 0xe2 && (b == 0x81 && c == 0x9f) || a == 0xe3 && (b == 0x80 && c == 0x80)))

abbrev wide_width : ℕ → List ℕ → ℕ
wide_width a [] = 0
wide_width a (b ∷ []) = if a == 0xc2 && (b == 0x85 || b == 0xa0) then 2 else 0
wide_width a (b ∷ c ∷ s) =
    if a == 0xc2 && (b == 0x85 || b == 0xa0) then 2 else if is_wide_space a b c then 3 else 0

-- The number of bytes of the white character that a text starts with; 0 if there is none.
abbrev white_width : List ℕ → ℕ
white_width [] = 0
white_width (a ∷ s) = if leb 9 a && leb a 13 || a == 32 then 1 else wide_width a s

-- `trim_start`, with fuel
trim_loop : ℕ → List ℕ → List ℕ
trim_loop zero s = s
trim_loop (suc fuel) s =
    let rest = trim_loop fuel (drop (white_width s) s) in if white_width s == 0 then s else rest

trim_start : List ℕ → List ℕ
unfolding trim_loop
trim_start s = trim_loop (length s) s

abbrev pub is_empty : List ℕ → Bool
is_empty [] = true
is_empty (c ∷ s) = false

-- `trim().is_empty()`
unfoldable pub is_blank : List ℕ → Bool
unfolding trim_start
is_blank s = is_empty (trim_start s)

-- `trim_end`: the text ends where only white characters follow.
trim_end : List ℕ → List ℕ
unfolding is_blank
trim_end [] = []
trim_end (c ∷ s) = let rest = trim_end s in if is_blank (c ∷ s) then [] else c ∷ rest

unfoldable pub trim : List ℕ → List ℕ
unfolding trim_start trim_end
trim s = trim_end (trim_start s)

-- `to_string` of a number, with fuel for its digits.
decimal_digits : ℕ → ℕ → List ℕ
decimal_digits zero n = []
decimal_digits (suc fuel) n =
    let front = decimal_digits fuel (n / 10) in
    let last = b'0' + n % 10 in if ltb n 10 then last ∷ [] else front ++ (last ∷ [])

unfoldable pub decimal : ℕ → List ℕ
unfolding decimal_digits
decimal n = decimal_digits (suc n) n
