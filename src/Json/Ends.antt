-- ===== src/Json/Ends.antt =====
-- src/json.rs: what the parser leaves of its input, for the parts below a value.
use subnext.Prelude.{
  ◌≡◌, refl, ℕ, zero, suc, ◌≤◌, ◌<◌, Bool, true, false, Option, none, some, List, [], ◌∷◌, ◌++◌,
  length, ◌==◌, if◌then◌else◌, arith,
}
use subnext.Prelude.Bytes.{codes}
use subnext.Json.{Floats, Json, num, str, null, boolean}
use subnext.Json.Read.{
  ParseError, radix_16, bad_unicode, bad_number, from_u32, ok_or, out_of_fuel, Result, ok, err,
  ◌>>=◌, skip_ws, expect, parse_unicode, parse_escape, parse_chars, parse_string, number_span,
  parse_number, parse_scalar, parse_word,
}

abbrev pub is_out : ParseError → Bool
is_out out_of_fuel = true
is_out _ = false

-- A result leaves `n` characters at most, and an error is not that of the fuel.
abbrev pub Ends {ℓ} : {A : Type ℓ} → (A → List ℕ) → ℕ → Result A → Type 0
Ends left n (ok a) = length (left a) ≤ n
Ends left n (err e) = is_out e ≡ false

abbrev pub all_left : List ℕ → List ℕ
all_left s = s

module _ {ℓ} {A : Type ℓ} where
  abbrev pub behind : A × List ℕ → List ℕ
  behind r = r.1

  pub Ends-bind {κ} :
      {B : Type κ} (left : A → List ℕ) (left' : B → List ℕ) (n n' : ℕ) (m : Result A)
      (f : A → Result B)
      → Ends left n m
      → ((a : A) → length (left a) ≤ n → Ends left' n' (f a))
      → Ends left' n' (m >>= f)
  Ends-bind left left' n n' (ok a) f h k = k a h
  Ends-bind left left' n n' (err e) f h k = h

ok_or-Ends {ℓ} :
    {B : Type ℓ} (n : ℕ) (o : Option ℕ) (e : ParseError)
    → is_out e ≡ false
    → (f : ℕ → Result (B × List ℕ)) → ((a : ℕ) → Ends behind n (f a))
    → Ends behind n (ok_or o e >>= f)
ok_or-Ends n none e h f k = h
ok_or-Ends n (some a) e h f k = k a

pub if-Ends {ℓ} :
    {A : Type ℓ} (left : A → List ℕ) (n : ℕ) (b : Bool) (x y : Result A)
    → Ends left n x
    → Ends left n y
    → Ends left n (if b then x else y)
if-Ends left n true x y h k = h
if-Ends left n false x y h k = k

pub length-skip_ws : (s : List ℕ) → length (skip_ws s) ≤ length s
unfolding skip_ws
length-skip_ws [] = omega arith
length-skip_ws (c ∷ s) = ground (arith, length-skip_ws s)

expect-Ends : (word es s : List ℕ) (n : ℕ) → length s ≤ n → Ends all_left n (expect word es s)
unfolding expect
expect-Ends word [] s n h = h
expect-Ends word (e ∷ es) [] n h = refl
expect-Ends word (e ∷ es) (c ∷ s) n h =
    if-Ends all_left n (c == e) (expect word es s) _ (expect-Ends word es s n (omega arith)) refl

parse_unicode-Ends : (s : List ℕ) (n : ℕ) → length s ≤ n → Ends behind n (parse_unicode s)
unfolding parse_unicode
parse_unicode-Ends [] n h = refl
parse_unicode-Ends (a ∷ []) n h = refl
parse_unicode-Ends (a ∷ b ∷ []) n h = refl
parse_unicode-Ends (a ∷ b ∷ c ∷ []) n h = refl
parse_unicode-Ends (a ∷ b ∷ c ∷ d ∷ s) n h =
    ok_or-Ends n (radix_16 (a ∷ b ∷ c ∷ d ∷ [])) bad_unicode refl
      (λ (code : ℕ). ok (from_u32 code, s)) (λ code. omega arith)

parse_escape-Ends : (s : List ℕ) (n : ℕ) → length s ≤ n → Ends behind n (parse_escape s)
unfolding parse_escape
parse_escape-Ends [] n h = refl
parse_escape-Ends (e ∷ s) n h =
    let below : length s ≤ n = omega arith in
    if-Ends behind n (e == b'"') _ _ below (
      if-Ends behind n (e == b'\\') _ _ below (
        if-Ends behind n (e == b'/') _ _ below (
          if-Ends behind n (e == b'b') _ _ below (
            if-Ends behind n (e == b'f') _ _ below (
              if-Ends behind n (e == b'n') _ _ below (
                if-Ends behind n (e == b'r') _ _ below (
                  if-Ends behind n (e == b't') _ _ below
                    (if-Ends behind n (e == b'u') _ _ (parse_unicode-Ends s n below) refl))))))))

parse_chars-Ends :
    (fuel : ℕ) (out s : List ℕ) (n : ℕ)
    → length s ≤ fuel
    → length s ≤ n
    → Ends behind n (parse_chars fuel out s)
unfolding parse_chars
parse_chars-Ends zero out [] n f h = refl
parse_chars-Ends (suc fuel) out [] n f h = refl
parse_chars-Ends zero out (c ∷ s) n f h = absurd (omega arith)
parse_chars-Ends (suc fuel) out (c ∷ s) n f h = if-Ends behind n (c == b'"') _ _ (omega arith) (
    if-Ends behind n (c == b'\\') _ _
      (Ends-bind behind behind (length s) n (parse_escape s)
        (λ (e : ℕ × List ℕ). parse_chars fuel (out ++ (e.0 ∷ [])) e.1)
        (parse_escape-Ends s (length s) (omega arith))
        (λ e k. parse_chars-Ends fuel (out ++ (e.0 ∷ [])) e.1 n (omega arith) (omega arith)))
      (parse_chars-Ends fuel (out ++ (c ∷ [])) s n (omega arith) (omega arith)))

pub parse_string-Ends : (s : List ℕ) (n : ℕ) → length s ≤ suc n → Ends behind n (parse_string s)
unfolding parse_string
parse_string-Ends [] n h = refl
parse_string-Ends (c ∷ s) n h =
    if-Ends behind n (c == b'"') (parse_chars (length s) [] s) _
      (parse_chars-Ends (length s) [] s n (omega arith) (omega arith)) refl

length-number_span : (s : List ℕ) → length (number_span s).1 ≤ length s
unfolding number_span
length-number_span [] = omega arith
length-number_span (c ∷ s) = ground (arith, length-number_span s)

parse_number-Ends :
    (floats : Floats) (s : List ℕ) (n : ℕ) → length s ≤ n → Ends behind n (parse_number floats s)
unfolding parse_number
parse_number-Ends floats s n h =
    ok_or-Ends n (floats.read (number_span s).0) (bad_number (number_span s).0) refl
      (λ (x : ℕ). ok (num x, (number_span s).1)) (λ x. omega (arith, length-number_span s))

parse_word-Ends :
    (word s : List ℕ) (v : Json) (n : ℕ) → length s ≤ n → Ends behind n (parse_word word v s)
unfolding parse_word
parse_word-Ends word s v n h =
    Ends-bind all_left behind n n (expect word word s) (λ (rest : List ℕ). ok (v, rest))
      (expect-Ends word word s n h) (λ rest k. k)

pub parse_scalar-Ends :
    (floats : Floats) (c : ℕ) (s : List ℕ) (n : ℕ)
    → length s < n
    → Ends behind n (parse_scalar floats c s)
unfolding parse_scalar
parse_scalar-Ends floats c s n h =
    if-Ends behind n (c == b'"') _ _
      (Ends-bind behind behind n n (parse_string (c ∷ s))
        (λ (r : List ℕ × List ℕ). ok (str r.0, r.1)) (parse_string-Ends (c ∷ s) n (omega arith))
        (λ r k. k))
      (if-Ends behind n (c == b't') _ _
        (parse_word-Ends (codes "true") (c ∷ s) (boolean true) n (omega arith))
        (if-Ends behind n (c == b'f') _ _
          (parse_word-Ends (codes "false") (c ∷ s) (boolean false) n (omega arith))
          (if-Ends behind n (c == b'n') _ _
            (parse_word-Ends (codes "null") (c ∷ s) null n (omega arith))
            (parse_number-Ends floats (c ∷ s) n (omega arith)))))
