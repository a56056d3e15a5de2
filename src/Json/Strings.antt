-- ===== src/Json/Strings.antt =====
-- src/json.rs: `parse_string` reads back what `write_string` writes.
use subnext.Prelude.{
  ◌≡◌, refl, ap, ◌∙◌, ℕ, zero, suc, ◌/◌, ◌%◌, ◌≤◌, ◌<◌, Bool, true, false, Option, none, some, List,
  [], ◌∷◌, ◌++◌, append-nil, append_assoc, length, length-append, get_or, ◌==◌, ==_iff, ltb, arith,
  Bool-cases, inl, inr, passes, passes_sound,
}
use subnext.Hash.Hex.{hex_digits}
use subnext.Json.Write.{write_char, write_chars, write_string}
use subnext.Json.Read.{ok, radix_16, parse_unicode, parse_escape, parse_chars, parse_string}

is_some : ℕ → Option ℕ → Bool
is_some n none = false
is_some n (some m) = n == m

is_some-eq : (n : ℕ) (o : Option ℕ) → is_some n o ≡ true → o ≡ some n
unfolding is_some
is_some-eq n none h = cc
is_some-eq n (some m) h = ground arith

abbrev hex_text : ℕ → List ℕ
hex_text c =
    get_or hex_digits (c / 4096 % 16) 0
    ∷ get_or hex_digits (c / 256 % 16) 0
    ∷ get_or hex_digits (c / 16 % 16) 0
    ∷ get_or hex_digits (c % 16) 0
    ∷ []

radix_table : passes (λ c. is_some c (radix_16 (hex_text c))) 0x20 ≡ true
unfolding passes is_some radix_16
radix_table = refl

radix_16-hex_text : (c : ℕ) → c < 0x20 → radix_16 (hex_text c) ≡ some c
radix_16-hex_text c h =
    is_some-eq c _ (passes_sound (λ n. is_some n (radix_16 (hex_text n))) 0x20 radix_table c h)

parse_unicode-hex_text :
    (c : ℕ) (t : List ℕ) → c < 0x20 → parse_unicode (hex_text c ++ t) ≡ ok (c, t)
unfolding parse_unicode
parse_unicode-hex_text c t h = rw (radix_16-hex_text c h, parse_unicode) (ground arith)

parse_chars-escape :
    (fuel : ℕ) (out : List ℕ) (c : ℕ) (e t : List ℕ)
    → parse_escape e ≡ ok (c, t)
    → parse_chars (suc fuel) out (b'\\' ∷ e) ≡ parse_chars fuel (out ++ (c ∷ [])) t
unfolding parse_chars
parse_chars-escape fuel out c e t h = rw (h, parse_chars) refl

parse_chars-direct :
    (fuel : ℕ) (out : List ℕ) (c : ℕ) (t : List ℕ)
    → (c == b'"') ≡ false
    → (c == b'\\') ≡ false
    → parse_chars (suc fuel) out (c ∷ t) ≡ parse_chars fuel (out ++ (c ∷ [])) t
unfolding parse_chars
parse_chars-direct fuel out c t h k = rw (h, k, parse_chars) refl

-- A written character is read back in one round.
parse_chars-write_char :
    (fuel : ℕ) (out : List ℕ) (c : ℕ) (t : List ℕ)
    → parse_chars (suc fuel) out (write_char c ++ t) ≡ parse_chars fuel (out ++ (c ∷ [])) t
unfolding write_char parse_escape
parse_chars-write_char fuel out c t =
    let short : (d e : ℕ)
        → (c == d) ≡ true
        → parse_escape (e ∷ t) ≡ ok (d, t)
        → parse_chars (suc fuel) out (b'\\' ∷ e ∷ t) ≡ parse_chars fuel (out ++ (c ∷ [])) t =
      λ d e same h. parse_chars-escape fuel out c (e ∷ t) t (rw ((==_iff c d).0 same) h) in
    elim (Bool-cases (c == b'"')) [
      | inl q ↦ rw q (short b'"' b'"' q refl)
      | inr q ↦ elim (Bool-cases (c == b'\\')) [
        | inl b ↦ rw (q, b) (short b'\\' b'\\' b refl)
        | inr b ↦ elim (Bool-cases (c == 10)) [
          | inl n ↦ rw (q, b, n) (short 10 b'n' n refl)
          | inr n ↦ elim (Bool-cases (c == 13)) [
            | inl r ↦ rw (q, b, n, r) (short 13 b'r' r refl)
            | inr r ↦ elim (Bool-cases (c == 9)) [
              | inl tab ↦ rw (q, b, n, r, tab) (short 9 b't' tab refl)
              | inr tab ↦ elim (Bool-cases (ltb c 0x20)) [
                | inl low ↦
                    rw (q, b, n, r, tab, low)
                      (parse_chars-escape fuel out c (b'u' ∷ (hex_text c ++ t)) t
                        (parse_unicode-hex_text c t (ground arith)))
                | inr high ↦ rw (q, b, n, r, tab, high) (parse_chars-direct fuel out c t q b)
              ]
            ]
          ]
        ]
      ]
    ]

length-write_char : (c : ℕ) → 0 < length (write_char c)
unfolding write_char
length-write_char c = ground arith

length-write_chars : (s : List ℕ) → length s ≤ length (write_chars s)
unfolding write_chars
length-write_chars [] = omega arith
length-write_chars (c ∷ s) =
    omega (
      arith,
      length-write_chars s,
      length-write_char c,
      length-append (write_char c) (write_chars s),
    )

parse_chars-write_chars :
    (fuel : ℕ) (out s t : List ℕ)
    → length s < fuel
    → parse_chars fuel out (write_chars s ++ (b'"' ∷ t)) ≡ ok (out ++ s, t)
unfolding write_chars parse_chars
parse_chars-write_chars zero out s t h = absurd (omega arith)
parse_chars-write_chars (suc fuel) out [] t h = rw (append-nil out) refl
parse_chars-write_chars (suc fuel) out (c ∷ s) t h =
    rw (append_assoc (write_char c) (write_chars s) (b'"' ∷ t)) (
      parse_chars-write_char fuel out c (write_chars s ++ (b'"' ∷ t))
      ∙ (parse_chars-write_chars fuel (out ++ (c ∷ [])) s t (omega arith)
          ∙ ap (λ o. ok (o, t)) (append_assoc out (c ∷ []) s)))

-- A string is read back as it was written, whatever comes behind it.
pub parse_string-write_string : (s t : List ℕ) → parse_string (write_string s ++ t) ≡ ok (s, t)
unfolding parse_string write_string
parse_string-write_string s t = rw (append_assoc (write_chars s) (b'"' ∷ []) t) (
    parse_chars-write_chars (length (write_chars s ++ (b'"' ∷ t))) [] s t
      (omega (arith, length-append (write_chars s) (b'"' ∷ t), length-write_chars s)))
