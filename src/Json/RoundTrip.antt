-- ===== src/Json/RoundTrip.antt =====
-- src/json.rs: `parse` reads back what `to_json_string` writes.
use subnext.Prelude.{
  ◌≡◌, refl, subst, ℕ, zero, suc, ◌+◌, ◌≤◌, ◌<◌, Bool, true, false, ◌||◌, some, List, [], ◌∷◌, ◌++◌,
  append-nil, append_assoc, length, length-append, ◌==◌, All, arith,
}
use subnext.Prelude.Bytes.{codes}
use subnext.Json.{
  Floats, Json, null, boolean, num, str, arr, obj, Items, nil, cons, Pairs, end, pair,
}
use subnext.Json.Write.{write_number, write_string, write, write_items, write_pairs}
use subnext.Json.Read.{
  ok, is_whitespace, skip_ws, parse_string, is_number_char, number_span, parse_number, closed,
  value, object, array, parse_scalar, opening, parse_value, parse_items, parse_pairs, fuel_for,
  parse,
}
use subnext.Json.Steps.{
  parse_value-string, parse_value-array, parse_value-object, parse_items-more, parse_items-done,
  parse_pairs-more, parse_pairs-done, next-comma, next-bracket, next-brace,
}
use subnext.Json.Strings.{parse_string-write_string}

-- What may come behind a value in a text: nothing, or one of the characters that end it.
abbrev stops : List ℕ → Bool
stops [] = true
stops (c ∷ s) = c == b',' || (c == b']' || c == b'}')

number_span-append :
    (t rest : List ℕ)
    → All (λ c. is_number_char c ≡ true) t
    → stops rest ≡ true
    → number_span (t ++ rest) ≡ (t, rest)
unfolding number_span
number_span-append [] [] h e = refl
number_span-append [] (c ∷ rest) h e = ground arith
number_span-append (c ∷ t) rest h e = rw (h.0, number_span-append t rest h.1 e, number_span) refl

skip_ws-stops : (s : List ℕ) → stops s ≡ true → skip_ws s ≡ s
unfolding skip_ws
skip_ws-stops [] h = refl
skip_ws-stops (c ∷ s) h = ground arith

module _ (floats : Floats) where
  -- The text of a number is read back: it is one or more characters of a number, and `read` gives the
  -- number that it shows.
  abbrev NumberReads : ℕ → Type 0
  NumberReads n =
      (0 < length (write_number floats n))
      × All (λ c. is_number_char c ≡ true) (write_number floats n)
      × (floats.read (write_number floats n) ≡ some n)

  -- Each number of the value is read back.
  unfoldable mutual
    pub Reads : Json → Type 0
    Reads (num n) = NumberReads n
    Reads (arr vs) = ReadsItems vs
    Reads (obj ps) = ReadsPairs ps
    Reads _ = Unit

    ReadsItems : Items → Type 0
    ReadsItems nil = Unit
    ReadsItems (cons v vs) = Reads v × ReadsItems vs

    ReadsPairs : Pairs → Type 0
    ReadsPairs end = Unit
    ReadsPairs (pair k v ps) = Reads v × ReadsPairs ps

  -- The fuel that reading a value back takes.
  unfoldable mutual
    size : Json → ℕ
    size (arr vs) = suc (size_items vs)
    size (obj ps) = suc (size_pairs ps)
    size _ = 1

    size_items : Items → ℕ
    size_items nil = 0
    size_items (cons v vs) = suc (size v + size_items vs)

    size_pairs : Pairs → ℕ
    size_pairs end = 0
    size_pairs (pair k v ps) = suc (size v + size_pairs ps)

  -- A text that starts with a character of a number is read by `parse_number`.
  opening-number :
      (c : ℕ) (t : List ℕ)
      → is_number_char c ≡ true
      → opening floats (skip_ws (c ∷ t)) ≡ value (parse_number floats (c ∷ t))
  unfolding opening parse_scalar skip_ws
  opening-number c t h =
      let space : is_whitespace c ≡ false = ground arith in
      let brace : (c == b'{') ≡ false = ground arith in
      let bracket : (c == b'[') ≡ false = ground arith in
      let quote : (c == b'"') ≡ false = ground arith in
      let yes_word : (c == b't') ≡ false = ground arith in
      let no_word : (c == b'f') ≡ false = ground arith in
      let null_word : (c == b'n') ≡ false = ground arith in
      rw (space, brace, bracket, quote, yes_word, no_word, null_word, opening) refl

  parse_value-number :
      (fuel : ℕ) (t rest : List ℕ) (n : ℕ)
      → 0 < length t
      → All (λ c. is_number_char c ≡ true) t
      → floats.read t ≡ some n
      → stops rest ≡ true
      → parse_value floats (suc fuel) (t ++ rest) ≡ ok (num n, rest)
  unfolding parse_value parse_number
  parse_value-number fuel [] rest n p h e b = absurd (omega arith)
  parse_value-number fuel (c ∷ t) rest n p h e b =
      rw (opening-number c (t ++ rest) h.0, parse_value)
        (rw (number_span-append (c ∷ t) rest h b, parse_number) (rw e refl))

  -- The text of a value starts with a character that is neither white space nor a closing bracket.
  write-head :
      (v : Json)
      → Reads v
      → (c : ℕ) × (t : List ℕ) × (write floats v ≡ c ∷ t)
        × (is_whitespace c ≡ false)
        × ((c == b']') ≡ false)
  unfolding write Reads
  write-head null r = (_, _, refl, refl, refl)
  write-head (boolean true) r = (_, _, refl, refl, refl)
  write-head (boolean false) r = (_, _, refl, refl, refl)
  write-head (num n) r = number (write_number floats n) r.0 r.1
    where
      number :
          (t : List ℕ)
          → 0 < length t
          → All (λ c. is_number_char c ≡ true) t
          → (c : ℕ) × (u : List ℕ) × (t ≡ c ∷ u) × (is_whitespace c ≡ false) × ((c == b']') ≡ false)
      number [] p h = absurd (omega arith)
      number (c ∷ u) p h =
          let first : is_number_char c ≡ true = h.0 in (c, u, refl, ground arith, ground arith)
  write-head (str s) r = (_, _, refl, refl, refl)
  write-head (arr nil) r = (_, _, refl, refl, refl)
  write-head (arr (cons v vs)) r = (_, _, refl, refl, refl)
  write-head (obj end) r = (_, _, refl, refl, refl)
  write-head (obj (pair k v ps)) r = (_, _, refl, refl, refl)

  opening-items :
      (v : Json) (rest : List ℕ)
      → Reads v
      → opening floats (skip_ws (b'[' ∷ (write floats v ++ rest))) ≡ array (write floats v ++ rest)
  unfolding opening skip_ws closed
  opening-items v rest r =
      let (c, t, e, space, close) = write-head v r in rw e (rw (space, close, opening) refl)

  stops-write_items : (vs : Items) (rest : List ℕ) → stops (write_items floats vs ++ rest) ≡ true
  unfolding write
  stops-write_items nil rest = refl
  stops-write_items (cons v vs) rest = refl

  stops-write_pairs : (ps : Pairs) (rest : List ℕ) → stops (write_pairs floats ps ++ rest) ≡ true
  unfolding write
  stops-write_pairs end rest = refl
  stops-write_pairs (pair k v ps) rest = refl

  size-pos : (v : Json) → 0 < size v
  unfolding size
  size-pos null = omega arith
  size-pos (boolean b) = omega arith
  size-pos (num n) = omega arith
  size-pos (str s) = omega arith
  size-pos (arr vs) = omega arith
  size-pos (obj ps) = omega arith

  parse_value-null :
      (fuel : ℕ) (rest : List ℕ)
      → parse_value floats (suc fuel) (codes "null" ++ rest) ≡ ok (null, rest)
  unfolding parse_value
  parse_value-null fuel rest = refl

  parse_value-true :
      (fuel : ℕ) (rest : List ℕ)
      → parse_value floats (suc fuel) (codes "true" ++ rest) ≡ ok (boolean true, rest)
  unfolding parse_value
  parse_value-true fuel rest = refl

  parse_value-false :
      (fuel : ℕ) (rest : List ℕ)
      → parse_value floats (suc fuel) (codes "false" ++ rest) ≡ ok (boolean false, rest)
  unfolding parse_value
  parse_value-false fuel rest = refl

  parse_value-nil :
      (fuel : ℕ) (rest : List ℕ)
      → parse_value floats (suc fuel) (b'[' ∷ b']' ∷ rest) ≡ ok (arr nil, rest)
  unfolding parse_value
  parse_value-nil fuel rest = refl

  parse_value-end :
      (fuel : ℕ) (rest : List ℕ)
      → parse_value floats (suc fuel) (b'{' ∷ b'}' ∷ rest) ≡ ok (obj end, rest)
  unfolding parse_value
  parse_value-end fuel rest = refl

  parse_value-write_string :
      (fuel : ℕ) (s rest : List ℕ)
      → parse_value floats (suc fuel) (write_string s ++ rest) ≡ ok (str s, rest)
  unfolding write_string
  parse_value-write_string fuel s rest =
      parse_value-string floats fuel _ s rest (parse_string-write_string s rest)

  -- A key starts with a quote, so nothing is skipped.
  read_key : (k t : List ℕ) → parse_string (skip_ws (write_string k ++ t)) ≡ ok (k, t)
  unfolding write_string skip_ws
  read_key k t = parse_string-write_string k t

  opening-pairs :
      (k t : List ℕ)
      → opening floats (skip_ws (b'{' ∷ (write_string k ++ t))) ≡ object (write_string k ++ t)
  unfolding opening write_string
  opening-pairs k t = refl

  mutual
    unfolding write size Reads

    parse_value-write :
        (fuel : ℕ) (v : Json) (rest : List ℕ)
        → Reads v
        → size v ≤ fuel
        → stops rest ≡ true
        → parse_value floats fuel (write floats v ++ rest) ≡ ok (v, rest)
    parse_value-write zero v rest r h e = absurd (omega (arith, size-pos v))
    parse_value-write (suc fuel) null rest r h e = parse_value-null fuel rest
    parse_value-write (suc fuel) (boolean true) rest r h e = parse_value-true fuel rest
    parse_value-write (suc fuel) (boolean false) rest r h e = parse_value-false fuel rest
    parse_value-write (suc fuel) (num n) rest r h e =
        parse_value-number fuel (write_number floats n) rest n r.0 r.1 r.2 e
    parse_value-write (suc fuel) (str s) rest r h e = parse_value-write_string fuel s rest
    parse_value-write (suc fuel) (arr nil) rest r h e = parse_value-nil fuel rest
    parse_value-write (suc fuel) (arr (cons v vs)) rest r h e =
        rw (append_assoc (write floats v) (write_items floats vs) rest) (
          parse_value-array floats fuel (b'[' ∷ (write floats v ++ (write_items floats vs ++ rest)))
            _ rest (cons v vs) (opening-items v (write_items floats vs ++ rest) r.0)
            (parse_items-write fuel v vs rest r.0 r.1 (omega arith)))
    parse_value-write (suc fuel) (obj end) rest r h e = parse_value-end fuel rest
    parse_value-write (suc fuel) (obj (pair k v ps)) rest r h e =
        rw
          (
            append_assoc (write_string k) (b':' ∷ (write floats v ++ write_pairs floats ps)) rest,
            append_assoc (write floats v) (write_pairs floats ps) rest,
          )
          (parse_value-object floats fuel _
            (write_string k ++ (b':' ∷ (write floats v ++ (write_pairs floats ps ++ rest)))) rest
            (pair k v ps) (opening-pairs k _)
            (parse_pairs-write fuel k v ps rest r.0 r.1 (omega arith)))

    parse_items-write :
        (fuel : ℕ) (v : Json) (vs : Items) (rest : List ℕ)
        → Reads v
        → ReadsItems vs
        → suc (size v + size_items vs) ≤ fuel
        → parse_items floats fuel (write floats v ++ (write_items floats vs ++ rest))
          ≡ ok (cons v vs, rest)
    parse_items-write zero v vs rest r rs h = absurd (omega arith)
    parse_items-write (suc fuel) v nil rest r rs h =
        parse_items-done floats fuel _ (b']' ∷ rest) rest v
          (parse_value-write fuel v (b']' ∷ rest) r (omega arith) refl) (next-bracket rest)
    parse_items-write (suc fuel) v (cons w ws) rest r rs h =
        rw (append_assoc (write floats w) (write_items floats ws) rest) (
          parse_items-more floats fuel _
            (b',' ∷ (write floats w ++ (write_items floats ws ++ rest))) _ rest v (cons w ws)
            (parse_value-write fuel v _ r (omega arith) refl) (next-comma b']' _)
            (parse_items-write fuel w ws rest rs.0 rs.1 (omega arith)))

    parse_pairs-write :
        (fuel : ℕ) (k : List ℕ) (v : Json) (ps : Pairs) (rest : List ℕ)
        → Reads v
        → ReadsPairs ps
        → suc (size v + size_pairs ps) ≤ fuel
        → parse_pairs floats fuel
            (write_string k ++ (b':' ∷ (write floats v ++ (write_pairs floats ps ++ rest))))
          ≡ ok (pair k v ps, rest)
    parse_pairs-write zero k v ps rest r rs h = absurd (omega arith)
    parse_pairs-write (suc fuel) k v end rest r rs h =
        parse_pairs-done floats fuel _ k (write floats v ++ (b'}' ∷ rest)) (b'}' ∷ rest) rest v
          (read_key k _) (parse_value-write fuel v (b'}' ∷ rest) r (omega arith) refl)
          (next-brace rest)
    parse_pairs-write (suc fuel) k v (pair k' w ps) rest r rs h =
        rw
          (
            append_assoc (write_string k') (b':' ∷ (write floats w ++ write_pairs floats ps)) rest,
            append_assoc (write floats w) (write_pairs floats ps) rest,
          )
          (parse_pairs-more floats fuel _ k
            (write floats v
              ++ (b','
                  ∷ (write_string k'
                      ++ (b':' ∷ (write floats w ++ (write_pairs floats ps ++ rest))))))
            _ _ rest v (pair k' w ps) (read_key k _)
            (parse_value-write fuel v _ r (omega arith) refl) (next-comma b'}' _)
            (parse_pairs-write fuel k' w ps rest rs.0 rs.1 (omega arith)))

  length-write_string : (s : List ℕ) → 0 < length (write_string s)
  unfolding write_string
  length-write_string s = omega arith

  -- The fuel of `parse` is enough.
  mutual
    unfolding write size Reads

    size-write : (v : Json) → Reads v → size v ≤ length (write floats v)
    size-write null r = omega arith
    size-write (boolean true) r = omega arith
    size-write (boolean false) r = omega arith
    size-write (num n) r = r.0
    size-write (str s) r = length-write_string s
    size-write (arr nil) r = omega arith
    size-write (arr (cons v vs)) r = omega (
      arith,
      size-write v r.0,
      size-write_items vs r.1,
      length-append (write floats v) (write_items floats vs),
    )
    size-write (obj end) r = omega arith
    size-write (obj (pair k v ps)) r = omega (
      arith,
      size-write v r.0,
      size-write_pairs ps r.1,
      length-append (write_string k) (b':' ∷ (write floats v ++ write_pairs floats ps)),
      length-append (write floats v) (write_pairs floats ps),
    )

    size-write_items : (vs : Items) → ReadsItems vs → size_items vs < length (write_items floats vs)
    size-write_items nil r = omega arith
    size-write_items (cons v vs) r = omega (
      arith,
      size-write v r.0,
      size-write_items vs r.1,
      length-append (write floats v) (write_items floats vs),
    )

    size-write_pairs : (ps : Pairs) → ReadsPairs ps → size_pairs ps < length (write_pairs floats ps)
    size-write_pairs end r = omega arith
    size-write_pairs (pair k v ps) r = omega (
      arith,
      size-write v r.0,
      size-write_pairs ps r.1,
      length-append (write_string k) (b':' ∷ (write floats v ++ write_pairs floats ps)),
      length-append (write floats v) (write_pairs floats ps),
    )

  -- `parse` reads the text that `to_json_string` writes back to the value, for every value of which
  -- each number is read back.
  pub parse-write : (v : Json) → Reads v → parse floats (write floats v) ≡ ok v
  unfolding parse
  parse-write v r =
      let text = write floats v in
      let trip : parse_value floats (fuel_for floats text) text ≡ ok (v, []) =
        subst (λ t. parse_value floats (fuel_for floats text) t ≡ ok (v, [])) (append-nil text)
          (parse_value-write (fuel_for floats text) v [] r (omega (arith, size-write v r)) refl) in
      rw (trip, parse) refl
