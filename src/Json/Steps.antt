-- ===== src/Json/Steps.antt =====
-- src/json.rs: one step of the reader, where the results of its parts are known.
use subnext.Prelude.{◌≡◌, refl, ◌∙◌, ℕ, suc, List, ◌∷◌}
use subnext.Json.{Floats, Json, str, arr, obj, Items, nil, cons, Pairs, end, pair}
use subnext.Json.Read.{
  Result, ok, ◌>>=◌, skip_ws, parse_string, more, done, next, value, object, array, parse_scalar,
  opening, parse_value, parse_items, parse_pairs,
}

module _ (floats : Floats) where
  pub parse_value-array :
      (fuel : ℕ) (t s rest : List ℕ) (vs : Items)
      → opening floats (skip_ws t) ≡ array s
      → parse_items floats fuel s ≡ ok (vs, rest)
      → parse_value floats (suc fuel) t ≡ ok (arr vs, rest)
  unfolding parse_value
  parse_value-array fuel t s rest vs e h = rw (e, parse_value) (rw h refl)

  pub parse_value-object :
      (fuel : ℕ) (t s rest : List ℕ) (ps : Pairs)
      → opening floats (skip_ws t) ≡ object s
      → parse_pairs floats fuel s ≡ ok (ps, rest)
      → parse_value floats (suc fuel) t ≡ ok (obj ps, rest)
  unfolding parse_value
  parse_value-object fuel t s rest ps e h = rw (e, parse_value) (rw h refl)

  pub parse_items-more :
      (fuel : ℕ) (s x y rest : List ℕ) (v : Json) (vs : Items)
      → parse_value floats fuel s ≡ ok (v, x)
      → next b']' (skip_ws x) ≡ more y
      → parse_items floats fuel y ≡ ok (vs, rest)
      → parse_items floats (suc fuel) s ≡ ok (cons v vs, rest)
  unfolding parse_items
  parse_items-more fuel s x y rest v vs e n h = rw (e, parse_items) (rw n (rw h refl))

  pub parse_items-done :
      (fuel : ℕ) (s x rest : List ℕ) (v : Json)
      → parse_value floats fuel s ≡ ok (v, x)
      → next b']' (skip_ws x) ≡ done rest
      → parse_items floats (suc fuel) s ≡ ok (cons v nil, rest)
  unfolding parse_items
  parse_items-done fuel s x rest v e n = rw (e, parse_items) (rw n refl)

  pub parse_pairs-more :
      (fuel : ℕ) (s k b x y rest : List ℕ) (v : Json) (ps : Pairs)
      → parse_string (skip_ws s) ≡ ok (k, b':' ∷ b)
      → parse_value floats fuel b ≡ ok (v, x)
      → next b'}' (skip_ws x) ≡ more y
      → parse_pairs floats fuel y ≡ ok (ps, rest)
      → parse_pairs floats (suc fuel) s ≡ ok (pair k v ps, rest)
  unfolding parse_pairs
  parse_pairs-more fuel s k b x y rest v ps t e n h = rw (t, parse_pairs) (rw e (rw n (rw h refl)))

  pub parse_pairs-done :
      (fuel : ℕ) (s k b x rest : List ℕ) (v : Json)
      → parse_string (skip_ws s) ≡ ok (k, b':' ∷ b)
      → parse_value floats fuel b ≡ ok (v, x)
      → next b'}' (skip_ws x) ≡ done rest
      → parse_pairs floats (suc fuel) s ≡ ok (pair k v end, rest)
  unfolding parse_pairs
  parse_pairs-done fuel s k b x rest v t e n = rw (t, parse_pairs) (rw e (rw n refl))

  opening-string :
      (t : List ℕ)
      → opening floats (skip_ws (b'"' ∷ t))
        ≡ value (parse_string (b'"' ∷ t) >>= (λ (r : List ℕ × List ℕ). ok (str r.0, r.1)))
  unfolding opening parse_scalar
  opening-string t = refl

  parse_value-value :
      (fuel : ℕ) (t : List ℕ) (r : Result (Json × List ℕ))
      → opening floats (skip_ws t) ≡ value r
      → parse_value floats (suc fuel) t ≡ r
  unfolding parse_value
  parse_value-value fuel t r e = rw (e, parse_value) refl

  pub parse_value-string :
      (fuel : ℕ) (t s rest : List ℕ)
      → parse_string (b'"' ∷ t) ≡ ok (s, rest)
      → parse_value floats (suc fuel) (b'"' ∷ t) ≡ ok (str s, rest)
  parse_value-string fuel t s rest h =
      parse_value-value fuel (b'"' ∷ t) _ (opening-string t) ∙ rw h refl

pub next-comma : (close : ℕ) (rest : List ℕ) → next close (skip_ws (b',' ∷ rest)) ≡ more rest
unfolding next skip_ws
next-comma close rest = refl

pub next-bracket : (rest : List ℕ) → next b']' (skip_ws (b']' ∷ rest)) ≡ done rest
unfolding next skip_ws
next-bracket rest = refl

pub next-brace : (rest : List ℕ) → next b'}' (skip_ws (b'}' ∷ rest)) ≡ done rest
unfolding next skip_ws
next-brace rest = refl
