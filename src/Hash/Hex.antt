-- ===== src/Hash/Hex.antt =====
-- src/hash.rs: `Digest::to_hex`, `Digest::short` and `Digest::parse_hex`. Text is its bytes.
use subnext.Prelude.{
  ℕ, zero, suc, ◌+◌, ◌-◌, ◌*◌, ◌/◌, ◌%◌, ◌<◌, ◌≡◌, refl, sym, ap, ◌∙◌, Bool, true, false, ◌&&◌,
  Option, none, some, Option-cases, Bool-cases, some_eq, inl, inr, List, [], ◌∷◌, map, bit_or,
  length, get_or, take, All, leb, ltb, ◌==◌, ==_iff, if◌then◌else◌, ◌>>=◌, passes, passes_sound,
  arith,
}

-- "0123456789abcdef"
abbrev pub hex_digits : List ℕ
hex_digits = 48 ∷ 49 ∷ 50 ∷ 51 ∷ 52 ∷ 53 ∷ 54 ∷ 55 ∷ 56 ∷ 57 ∷ 97 ∷ 98 ∷ 99 ∷ 100 ∷ 101 ∷ 102 ∷ []

unfoldable pub to_hex : List ℕ → List ℕ
to_hex [] = []
to_hex (byte ∷ rest) =
    get_or hex_digits (byte / 16) 0 ∷ get_or hex_digits (byte % 16) 0 ∷ to_hex rest

pub short : List ℕ → ℕ → List ℕ
short digest n = take n (to_hex digest)

-- `char::to_digit(16)`
unfoldable pub to_digit : ℕ → Option ℕ
to_digit c =
    if leb b'0' c && leb c b'9'
    then some (c - b'0')
    else if leb b'a' c && leb c b'f'
    then some (c - b'a' + 10)
    else if leb b'A' c && leb c b'F'
    then some (c - b'A' + 10)
    else none

-- `((hi << 4) | lo) as u8`
abbrev join_digits : ℕ → ℕ → ℕ
join_digits hi lo = bit_or (hi * 16) lo % 256

-- The loop of `parse_hex`; `?` leaves it at the first character that is no digit.
unfoldable pub parse_pairs : List ℕ → Option (List ℕ)
parse_pairs (h ∷ l ∷ rest) = do
  hi ← to_digit h
  lo ← to_digit l
  out ← parse_pairs rest
  some (join_digits hi lo ∷ out)
parse_pairs _ = some []

unfoldable pub parse_hex : List ℕ → Option (List ℕ)
parse_hex text = if length text == 64 then parse_pairs text else none

-- A digest: 32 bytes.
abbrev pub IsDigest : List ℕ → Type 0
IsDigest d = (length d ≡ 32) × All (λ b. b < 256) d

-- ASCII lower case.
abbrev pub to_lower : ℕ → ℕ
to_lower c = if leb b'A' c && leb c b'F' then c + 32 else c

digit_of : ℕ → Option ℕ → Bool
digit_of n none = false
digit_of n (some m) = n == m

digit_table : passes (λ n. digit_of n (to_digit (get_or hex_digits n 0))) 16 ≡ true
unfolding passes digit_of to_digit
digit_table = refl

join_table : passes (λ b. join_digits (b / 16) (b % 16) == b) 256 ≡ true
unfolding passes
join_table = refl

to_digit-hex : (n : ℕ) → n < 16 → to_digit (get_or hex_digits n 0) ≡ some n
unfolding digit_of
to_digit-hex n h =
    ground
      (arith, passes_sound (λ n. digit_of n (to_digit (get_or hex_digits n 0))) 16 digit_table n h)

join_digits_lem : (b : ℕ) → b < 256 → join_digits (b / 16) (b % 16) ≡ b
join_digits_lem b h =
    (==_iff _ _).0 (passes_sound (λ b. join_digits (b / 16) (b % 16) == b) 256 join_table b h)

parse_pairs-to_hex : (d : List ℕ) → All (λ b. b < 256) d → parse_pairs (to_hex d) ≡ some d
unfolding parse_pairs to_hex
parse_pairs-to_hex [] h = refl
parse_pairs-to_hex (b ∷ d) h =
    let hi : b / 16 < 16 = omega (arith, h.0) in
    let lo : b % 16 < 16 = omega arith in
    rw (
      to_digit-hex (b / 16) hi,
      to_digit-hex (b % 16) lo,
      parse_pairs-to_hex d h.1,
      join_digits_lem b h.0,
    )

length-to_hex : (d : List ℕ) → length (to_hex d) ≡ 2 * length d
unfolding to_hex
length-to_hex [] = omega arith
length-to_hex (b ∷ d) = omega (arith, length-to_hex d)

-- Parsing what `to_hex` prints of a digest returns the digest.
pub parse_hex-to_hex : (d : List ℕ) → IsDigest d → parse_hex (to_hex d) ≡ some d
unfolding parse_hex
parse_hex-to_hex d h = ground (arith, length-to_hex d, parse_pairs-to_hex d h.1)

-- A digit prints as its character, in lower case.
accepts : ℕ → Bool
accepts c = elim (to_digit c) [
  | none ↦ true
  | some n ↦ ltb n 16 && (get_or hex_digits n 0 == to_lower c)
]

accepts_table : passes accepts 103 ≡ true
unfolding passes accepts to_digit
accepts_table = refl

to_digit-lt : (c n : ℕ) → to_digit c ≡ some n → c < 103
unfolding to_digit
to_digit-lt c n h = ground arith

to_digit-lower : (c n : ℕ) → to_digit c ≡ some n → (n < 16) × (get_or hex_digits n 0 ≡ to_lower c)
unfolding accepts
to_digit-lower c n h =
    let t = passes_sound accepts 103 accepts_table c (to_digit-lt c n h) in ground (arith, t)

join_digits-eq : (hi lo : ℕ) → hi < 16 → lo < 16 → join_digits hi lo ≡ hi * 16 + lo
join_digits-eq hi lo p q =
    let b = hi * 16 + lo in
    let e : b / 16 ≡ hi = omega arith in
    let f : b % 16 ≡ lo = omega arith in
    ap (λ x. join_digits x lo) (sym e)
    ∙ (ap (join_digits (b / 16)) (sym f) ∙ join_digits_lem b (omega arith))

-- One step of the loop, backwards.
pairs_step :
    (n c c' : ℕ) (text d : List ℕ)
    → parse_pairs (c ∷ c' ∷ text) ≡ some d
    → ((out : List ℕ)
        → parse_pairs text ≡ some out
        → (length out ≡ n) × All (λ b. b < 256) out × (to_hex out ≡ map to_lower text))
    → (length d ≡ suc n)
      × All (λ b. b < 256) d
      × (to_hex d ≡ to_lower c ∷ to_lower c' ∷ map to_lower text)
unfolding parse_pairs to_hex
pairs_step n c c' text d h ih = elim (Option-cases (to_digit c)) [
  | inl e ↦ cc (rw e at h)
  | inr (hi, e) ↦ elim (Option-cases (to_digit c')) [
    | inl e' ↦ cc (rw (e, e') at h)
    | inr (lo, e') ↦ elim (Option-cases (parse_pairs text)) [
      | inl e'' ↦ cc (rw (e, e', e'') at h)
      | inr (out, e'') ↦
          let (size, bytes, text_eq) = ih out e'' in
          let (hi_lt, hi_eq) = to_digit-lower c hi e in
          let (lo_lt, lo_eq) = to_digit-lower c' lo e' in
          let j = join_digits-eq hi lo hi_lt lo_lt in
          let is_d : join_digits hi lo ∷ out ≡ d = some_eq (rw (e, e', e'') at h) in
          let upper : (hi * 16 + lo) / 16 ≡ hi = omega arith in
          let lower : (hi * 16 + lo) % 16 ≡ lo = omega arith in
          rw (← is_d, j)
            (omega arith, (omega arith, bytes), rw (upper, lower, hi_eq, lo_eq, text_eq) refl)
    ]
  ]
]

parse_pairs_inv :
    (n : ℕ) (text d : List ℕ)
    → length text ≡ 2 * n
    → parse_pairs text ≡ some d
    → (length d ≡ n) × All (λ b. b < 256) d × (to_hex d ≡ map to_lower text)
unfolding parse_pairs to_hex
parse_pairs_inv zero [] d e h = rw (← some_eq h) (refl, tt, refl)
parse_pairs_inv zero (c ∷ text) d e h = absurd (omega arith)
parse_pairs_inv (suc n) [] d e h = absurd (omega arith)
parse_pairs_inv (suc n) (c ∷ []) d e h = absurd (omega arith)
parse_pairs_inv (suc n) (c ∷ c' ∷ text) d e h =
    pairs_step n c c' text d h (λ out p. parse_pairs_inv n text out (omega arith) p)

-- Parsing succeeds only on 64 digits, and the digest that it returns prints as the text that it was
-- given, in lower case.
pub to_hex-parse_hex :
    (text d : List ℕ)
    → parse_hex text ≡ some d
    → (length text ≡ 64) × IsDigest d × (to_hex d ≡ map to_lower text)
unfolding parse_hex
to_hex-parse_hex text d h = elim (Bool-cases (length text == 64)) [
  | inl long ↦
      let size : length text ≡ 64 = (==_iff _ _).0 long in
      let (n, bytes, same) = parse_pairs_inv 32 text d (omega arith) (rw (long, parse_hex) at h) in
      (size, (n, bytes), same)
  | inr other ↦ cc (rw (other, parse_hex) at h)
]
