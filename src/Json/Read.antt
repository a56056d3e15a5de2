-- ===== src/Json/Read.antt =====
-- src/json.rs: `parse` and its helpers. The position in the input is the list of the characters that
-- are left; an error is a constructor for its message, without the position that the message names.
use subnext.Prelude.{
  ℕ, zero, suc, ◌+◌, ◌*◌, Bool, true, false, ◌&&◌, ◌||◌, Option, none, some, List, [], ◌∷◌, ◌++◌,
  length, leb, ◌==◌, if◌then◌else◌,
}
use subnext.Prelude.Bytes.{codes}
use subnext.Hash.Hex.{to_digit}
use subnext.Json.{
  Floats, Json, null, boolean, num, str, arr, obj, Items, nil, cons, Pairs, end, pair,
}

pub data ParseError : Type 0 where
  unexpected_end : ParseError
  trailing_input : ParseError
  expected_word : List ℕ → ParseError
  expected_string : ParseError
  expected_colon : ParseError
  expected_comma_or_brace : ParseError
  expected_comma_or_bracket : ParseError
  unterminated_escape : ParseError
  unterminated_string : ParseError
  short_unicode : ParseError
  bad_unicode : ParseError
  bad_escape : ℕ → ParseError
  bad_number : List ℕ → ParseError
  -- No input leads to it: `parse-ne-out_of_fuel`.
  out_of_fuel : ParseError

pub data Result {ℓ} (A : Type ℓ) : Type ℓ where
  ok : A → Result A
  err : ParseError → Result A

infixl 5 ◌>>=◌
abbrev pub ◌>>=◌ {ℓ κ} : {A : Type ℓ} {B : Type κ} → Result A → (A → Result B) → Result B
ok a >>= f = f a
err e >>= f = err e

-- `Option::ok_or`
abbrev pub ok_or {ℓ} : {A : Type ℓ} → Option A → ParseError → Result A
ok_or none e = err e
ok_or (some a) e = ok a

-- `char::is_whitespace`
abbrev pub is_whitespace : ℕ → Bool
is_whitespace c =
    leb 9 c && leb c 13
    || (c == 32
        || (c == 0x85
            || (c == 0xa0
                || (c == 0x1680
                    || (leb 0x2000 c && leb c 0x200a
                        || (c == 0x2028
                            || (c == 0x2029 || (c == 0x202f || (c == 0x205f || c == 0x3000)))))))))

unfoldable pub skip_ws : List ℕ → List ℕ
skip_ws [] = []
skip_ws (c ∷ s) = let rest = skip_ws s in if is_whitespace c then rest else c ∷ s

-- `expect`, and what is left
unfoldable pub expect : List ℕ → List ℕ → List ℕ → Result (List ℕ)
expect word [] s = ok s
expect word (e ∷ es) [] = err (expected_word word)
expect word (e ∷ es) (c ∷ s) =
    let rest = expect word es s in if c == e then rest else err (expected_word word)

-- `u32::from_str_radix(…, 16)` of four characters, of which the first may be a sign.
hex_value : ℕ → List ℕ → Option ℕ
unfolding to_digit
hex_value n [] = some n
hex_value n (c ∷ cs) = elim (to_digit c) [ none ↦ none | some d ↦ hex_value (n * 16 + d) cs ]

unfoldable pub radix_16 : List ℕ → Option ℕ
unfolding hex_value
radix_16 [] = none
radix_16 (c ∷ cs) = if c == b'+' then hex_value 0 cs else hex_value 0 (c ∷ cs)

-- `char::from_u32(code).unwrap_or('\u{fffd}')`, for a code of four hex digits
abbrev pub from_u32 : ℕ → ℕ
from_u32 code = if leb 0xd800 code && leb code 0xdfff then 0xfffd else code

-- The four characters behind `\u`.
unfoldable pub parse_unicode : List ℕ → Result (ℕ × List ℕ)
unfolding radix_16
parse_unicode (a ∷ b ∷ c ∷ d ∷ s) =
    ok_or (radix_16 (a ∷ b ∷ c ∷ d ∷ [])) bad_unicode >>= λ (code : ℕ). ok (from_u32 code, s)
parse_unicode _ = err short_unicode

-- The character of an escape, behind its backslash.
unfoldable pub parse_escape : List ℕ → Result (ℕ × List ℕ)
unfolding parse_unicode
parse_escape [] = err unterminated_escape
parse_escape (e ∷ s) =
    if e == b'"'
    then ok (b'"', s)
    else if e == b'\\'
    then ok (b'\\', s)
    else if e == b'/'
    then ok (b'/', s)
    else if e == b'b'
    then ok (8, s)
    else if e == b'f'
    then ok (12, s)
    else if e == b'n'
    then ok (10, s)
    else if e == b'r'
    then ok (13, s)
    else if e == b't'
    then ok (9, s)
    else if e == b'u'
    then parse_unicode s
    else err (bad_escape e)

-- The loop of `parse_string`, with fuel.
unfoldable pub parse_chars : ℕ → List ℕ → List ℕ → Result (List ℕ × List ℕ)
unfolding parse_escape
parse_chars fuel out [] = err unterminated_string
parse_chars zero out (c ∷ s) = err out_of_fuel
parse_chars (suc fuel) out (c ∷ s) =
    let escaped = parse_escape s >>= λ (e : ℕ × List ℕ). parse_chars fuel (out ++ (e.0 ∷ [])) e.1 in
    let direct = parse_chars fuel (out ++ (c ∷ [])) s in
    if c == b'"' then ok (out, s) else if c == b'\\' then escaped else direct

unfoldable pub parse_string : List ℕ → Result (List ℕ × List ℕ)
unfolding parse_chars
parse_string [] = err expected_string
parse_string (c ∷ s) = if c == b'"' then parse_chars (length s) [] s else err expected_string

abbrev pub is_number_char : ℕ → Bool
is_number_char c =
    leb b'0' c && leb c b'9'
    || (c == b'.' || (c == b'e' || (c == b'E' || (c == b'+' || c == b'-'))))

-- The characters that the loop of `parse_number` takes, and what is left.
unfoldable pub number_span : List ℕ → List ℕ × List ℕ
number_span [] = ([], [])
number_span (c ∷ s) =
    let rest = number_span s in if is_number_char c then (c ∷ rest.0, rest.1) else ([], c ∷ s)

-- A leading minus is one of the characters of the loop.
unfoldable pub parse_number : Floats → List ℕ → Result (Json × List ℕ)
unfolding number_span
parse_number floats s =
    let r = number_span s in ok_or (floats.read r.0) (bad_number r.0) >>= λ (n : ℕ). ok (num n, r.1)

-- The tests of `chars.get(*pos)` behind an item and behind a pair.
pub data Next : Type 0 where
  more : List ℕ → Next
  done : List ℕ → Next
  other : Next

unfoldable pub next : ℕ → List ℕ → Next
next close [] = other
next close (c ∷ s) = if c == b',' then more s else if c == close then done s else other

-- The match on what is next.
abbrev pub after {ℓ} :
    {A : Type ℓ} → Next → (List ℕ → Result A) → (List ℕ → Result A) → ParseError → Result A
after (more rest) go stop e = go rest
after (done rest) go stop e = stop rest
after other go stop e = err e

unfoldable pub closed : ℕ → List ℕ → Option (List ℕ)
closed close [] = none
closed close (c ∷ s) = if c == close then some s else none

unfoldable pub colon : List ℕ → Result (List ℕ)
colon [] = err expected_colon
colon (c ∷ s) = if c == b':' then ok s else err expected_colon

-- `expect(chars, pos, word).map(|_| value)`
unfoldable pub parse_word : List ℕ → Json → List ℕ → Result (Json × List ℕ)
unfolding expect
parse_word word value s = expect word word s >>= λ (rest : List ℕ). ok (value, rest)

-- What `parse_value` finds: a value that holds no other, or the start of an object or of an array that
-- is not empty.
pub data Opening : Type 0 where
  value : Result (Json × List ℕ) → Opening
  object : List ℕ → Opening
  array : List ℕ → Opening

unfoldable pub parse_scalar : Floats → ℕ → List ℕ → Result (Json × List ℕ)
unfolding parse_string parse_word parse_number
parse_scalar floats c s =
    if c == b'"'
    then parse_string (c ∷ s) >>= (λ (r : List ℕ × List ℕ). ok (str r.0, r.1))
    else if c == b't'
    then parse_word (codes "true") (boolean true) (c ∷ s)
    else if c == b'f'
    then parse_word (codes "false") (boolean false) (c ∷ s)
    else if c == b'n'
    then parse_word (codes "null") null (c ∷ s)
    else parse_number floats (c ∷ s)

-- An object or an array that is closed at once is empty.
abbrev pub unless_closed : Option (List ℕ) → Json → Opening → Opening
unless_closed none empty opened = opened
unless_closed (some rest) empty opened = value (ok (empty, rest))

-- The choice of `parse_value`, with the first lines of `parse_object` and `parse_array`.
unfoldable pub opening : Floats → List ℕ → Opening
unfolding skip_ws closed parse_scalar
opening floats [] = value (err unexpected_end)
opening floats (c ∷ s) =
    if c == b'{'
    then unless_closed (closed b'}' (skip_ws s)) (obj end) (object (skip_ws s))
    else if c == b'['
    then unless_closed (closed b']' (skip_ws s)) (arr nil) (array (skip_ws s))
    else value (parse_scalar floats c s)

module _ (floats : Floats) where
  unfoldable mutual
    unfolding skip_ws parse_string next colon opening

    pub parse_value : ℕ → List ℕ → Result (Json × List ℕ)
    parse_value zero s = err out_of_fuel
    parse_value (suc fuel) s = elim (opening floats (skip_ws s)) [
      | value r ↦ r
      | object rest ↦ parse_pairs fuel rest >>= λ (r : Pairs × List ℕ). ok (obj r.0, r.1)
      | array rest ↦ parse_items fuel rest >>= λ (r : Items × List ℕ). ok (arr r.0, r.1)
    ]

    -- The loop of `parse_array`.
    pub parse_items : ℕ → List ℕ → Result (Items × List ℕ)
    parse_items zero s = err out_of_fuel
    parse_items (suc fuel) s = parse_value fuel s >>= λ (v : Json × List ℕ).
        after (next b']' (skip_ws v.1))
          (λ rest. parse_items fuel rest >>= λ (r : Items × List ℕ). ok (cons v.0 r.0, r.1))
          (λ rest. ok (cons v.0 nil, rest)) expected_comma_or_bracket

    -- The loop of `parse_object`.
    pub parse_pairs : ℕ → List ℕ → Result (Pairs × List ℕ)
    parse_pairs zero s = err out_of_fuel
    parse_pairs (suc fuel) s = parse_string (skip_ws s) >>= λ (k : List ℕ × List ℕ).
        colon (skip_ws k.1) >>= λ (rest : List ℕ). parse_value fuel rest >>= λ (v : Json × List ℕ).
        after (next b'}' (skip_ws v.1))
          (λ rest'. parse_pairs fuel rest' >>= λ (r : Pairs × List ℕ). ok (pair k.0 v.0 r.0, r.1))
          (λ rest'. ok (pair k.0 v.0 end, rest')) expected_comma_or_brace

  -- The fuel that an input needs.
  abbrev pub fuel_for : List ℕ → ℕ
  fuel_for s = 2 * length s + 1

  -- The last test of `parse`.
  abbrev pub finish : Json → List ℕ → Result Json
  finish v [] = ok v
  finish v (c ∷ s) = err trailing_input

  unfoldable pub parse : List ℕ → Result Json
  unfolding parse_value
  parse input =
      parse_value (fuel_for input) input >>= λ (v : Json × List ℕ). finish v.0 (skip_ws v.1)
