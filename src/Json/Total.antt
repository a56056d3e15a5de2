-- ===== src/Json/Total.antt =====
-- src/json.rs: `parse` ends on every input: its fuel is enough.
use subnext.Prelude.{
  ◌≡◌, ◌≢◌, refl, ap, ℕ, zero, suc, ◌+◌, ◌*◌, ◌≤◌, ◌<◌, Bool, true, false, Option, none, some, List,
  [], ◌∷◌, length, ◌==◌, if◌then◌else◌, arith,
}
use subnext.Json.{Floats, Json, Items, Pairs, arr, obj, nil, end, cons, pair}
use subnext.Json.Read.{
  ParseError, out_of_fuel, Result, ok, err, ◌>>=◌, skip_ws, parse_string, Next, more, done, other,
  next, after, expected_comma_or_bracket, expected_comma_or_brace, closed, colon, parse_value,
  unless_closed, Opening, value, object, array, opening, parse_items, parse_pairs, fuel_for, finish,
  parse,
}
use subnext.Json.Ends.{
  is_out, Ends, all_left, behind, Ends-bind, if-Ends, length-skip_ws, parse_string-Ends,
  parse_scalar-Ends,
}

colon-Ends : (s : List ℕ) (n : ℕ) → length s ≤ suc n → Ends all_left n (colon s)
unfolding colon
colon-Ends [] n h = refl
colon-Ends (c ∷ s) n h = if-Ends all_left n (c == b':') (ok s) _ (omega arith) refl

-- The parts of an input behind the character that was read are shorter than `n`.
abbrev NextBelow : ℕ → Next → Type 0
NextBelow n (more rest) = length rest < n
NextBelow n (done rest) = length rest < n
NextBelow n other = Unit

next-NextBelow : (close : ℕ) (s : List ℕ) (n : ℕ) → length s ≤ n → NextBelow n (next close s)
unfolding next
next-NextBelow close [] n h = tt
next-NextBelow close (c ∷ s) n h =
    if-NextBelow (c == b',') (more s) _ (omega arith)
      (if-NextBelow (c == close) (done s) other (omega arith) tt)
  where
    if-NextBelow :
        (b : Bool) (x y : Next) → NextBelow n x → NextBelow n y → NextBelow n (if b then x else y)
    if-NextBelow true x y p q = p
    if-NextBelow false x y p q = q

abbrev OpeningEnds : ℕ → Opening → Type 0
OpeningEnds n (value r) = Ends behind n r
OpeningEnds n (object rest) = length rest < n
OpeningEnds n (array rest) = length rest < n

length-closed : (close : ℕ) (s rest : List ℕ) → closed close s ≡ some rest → length rest < length s
unfolding closed
length-closed close [] rest h = cc
length-closed close (c ∷ s) rest h = ground arith

unless_closed-OpeningEnds :
    (o : Option (List ℕ)) (empty : Json) (opened : Opening) (n : ℕ)
    → ((rest : List ℕ) → o ≡ some rest → length rest ≤ n)
    → OpeningEnds n opened
    → OpeningEnds n (unless_closed o empty opened)
unless_closed-OpeningEnds none empty opened n h k = k
unless_closed-OpeningEnds (some rest) empty opened n h k = h rest refl

opening-OpeningEnds :
    (floats : Floats) (s : List ℕ) (n : ℕ) → length s ≤ n → OpeningEnds n (opening floats s)
unfolding opening
opening-OpeningEnds floats [] n h = refl
opening-OpeningEnds floats (c ∷ s) n h =
    if-OpeningEnds (c == b'{') _ _
      (unless_closed-OpeningEnds (closed b'}' (skip_ws s)) (obj end) (object (skip_ws s)) n
        (λ rest e. omega (arith, length-closed b'}' (skip_ws s) rest e, length-skip_ws s))
        (omega (arith, length-skip_ws s)))
      (if-OpeningEnds (c == b'[') _ _
        (unless_closed-OpeningEnds (closed b']' (skip_ws s)) (arr nil) (array (skip_ws s)) n
          (λ rest e. omega (arith, length-closed b']' (skip_ws s) rest e, length-skip_ws s))
          (omega (arith, length-skip_ws s)))
        (parse_scalar-Ends floats c s n (omega arith)))
  where
    if-OpeningEnds :
        (b : Bool) (x y : Opening)
        → OpeningEnds n x
        → OpeningEnds n y
        → OpeningEnds n (if b then x else y)
    if-OpeningEnds true x y p q = p
    if-OpeningEnds false x y p q = q

after-Ends {ℓ} :
    {A : Type ℓ} (left : A → List ℕ) (m n : ℕ) (nx : Next) (go stop : List ℕ → Result A)
    (e : ParseError)
    → NextBelow m nx
    → ((rest : List ℕ) → length rest < m → Ends left n (go rest))
    → ((rest : List ℕ) → length rest < m → Ends left n (stop rest))
    → is_out e ≡ false
    → Ends left n (after nx go stop e)
after-Ends left m n (more rest) go stop e b p q h = p rest b
after-Ends left m n (done rest) go stop e b p q h = q rest b
after-Ends left m n other go stop e b p q h = h

Ends-le {ℓ} :
    {A : Type ℓ} (left : A → List ℕ) (m n : ℕ) (r : Result A)
    → m ≤ n
    → Ends left m r
    → Ends left n r
Ends-le left m n (ok a) h k = omega arith
Ends-le left m n (err e) h k = k

module _ (floats : Floats) where
  mutual
    unfolding parse_value

    parse_value-Ends :
        (fuel : ℕ) (s : List ℕ)
        → 2 * length s < fuel
        → Ends behind (length s) (parse_value floats fuel s)
    parse_value-Ends zero s f = absurd (omega arith)
    parse_value-Ends (suc fuel) s f =
        opened (opening floats (skip_ws s))
          (opening-OpeningEnds floats (skip_ws s) (length s) (length-skip_ws s))
          (λ rest k.
            Ends-le behind (length rest) (length s) _ (omega arith)
              (parse_pairs-Ends fuel rest (omega arith)))
          (λ rest k.
            Ends-le behind (length rest) (length s) _ (omega arith)
              (parse_items-Ends fuel rest (omega arith)))
      where
        opened :
            (o : Opening)
            → OpeningEnds (length s) o
            → ((rest : List ℕ)
                → length rest < length s
                → Ends behind (length s) (parse_pairs floats fuel rest))
            → ((rest : List ℕ)
                → length rest < length s
                → Ends behind (length s) (parse_items floats fuel rest))
            → let r : Result (Json × List ℕ) = elim o [
              | value r ↦ r
              | object rest ↦
                  parse_pairs floats fuel rest >>= λ (r : Pairs × List ℕ). ok (obj r.0, r.1)
              | array rest ↦
                  parse_items floats fuel rest >>= λ (r : Items × List ℕ). ok (arr r.0, r.1)
            ] in
              Ends behind (length s) r
        opened (value r) e ps is = e
        opened (object rest) e ps is =
            Ends-bind behind behind (length s) (length s) (parse_pairs floats fuel rest)
              (λ (r : Pairs × List ℕ). ok (obj r.0, r.1)) (ps rest e) (λ r k. k)
        opened (array rest) e ps is =
            Ends-bind behind behind (length s) (length s) (parse_items floats fuel rest)
              (λ (r : Items × List ℕ). ok (arr r.0, r.1)) (is rest e) (λ r k. k)

    parse_items-Ends :
        (fuel : ℕ) (s : List ℕ)
        → 2 * length s + 1 < fuel
        → Ends behind (length s) (parse_items floats fuel s)
    parse_items-Ends zero s f = absurd (omega arith)
    parse_items-Ends (suc fuel) s f =
        let n = length s in
        Ends-bind behind behind n n (parse_value floats fuel s) _
          (parse_value-Ends fuel s (omega arith))
          (λ v k.
            after-Ends behind n n (next b']' (skip_ws v.1)) _ _ expected_comma_or_bracket
              (next-NextBelow b']' (skip_ws v.1) n (omega (arith, length-skip_ws v.1)))
              (λ rest b.
                Ends-bind behind behind n n (parse_items floats fuel rest)
                  (λ (r : Items × List ℕ). ok (cons v.0 r.0, r.1))
                  (Ends-le behind (length rest) n _ (omega arith)
                    (parse_items-Ends fuel rest (omega arith)))
                  (λ r j. j))
              (λ rest b. omega arith) refl)

    parse_pairs-Ends :
        (fuel : ℕ) (s : List ℕ)
        → 2 * length s + 1 < fuel
        → Ends behind (length s) (parse_pairs floats fuel s)
    parse_pairs-Ends zero s f = absurd (omega arith)
    parse_pairs-Ends (suc fuel) s f =
        let n = length s in
        Ends-bind behind behind n n (parse_string (skip_ws s)) _
          (parse_string-Ends (skip_ws s) n (omega (arith, length-skip_ws s)))
          (λ k j.
            Ends-bind all_left behind n n (colon (skip_ws k.1)) _
              (colon-Ends (skip_ws k.1) n (omega (arith, length-skip_ws k.1)))
              (λ rest b.
                Ends-bind behind behind n n (parse_value floats fuel rest) _
                  (Ends-le behind (length rest) n _ b (parse_value-Ends fuel rest (omega arith)))
                  (λ v i.
                    after-Ends behind n n (next b'}' (skip_ws v.1)) _ _ expected_comma_or_brace
                      (next-NextBelow b'}' (skip_ws v.1) n (omega (arith, length-skip_ws v.1)))
                      (λ rest' b'.
                        Ends-bind behind behind n n (parse_pairs floats fuel rest')
                          (λ (r : Pairs × List ℕ). ok (pair k.0 v.0 r.0, r.1))
                          (Ends-le behind (length rest') n _ (omega arith)
                            (parse_pairs-Ends fuel rest' (omega arith)))
                          (λ r j. j))
                      (λ rest' b'. omega arith) refl)))

  finish-Ends : (v : Json) (s : List ℕ) → Ends (λ (w : Json). []) 0 (finish floats v s)
  finish-Ends v [] = omega arith
  finish-Ends v (c ∷ s) = refl

  out_error : Result Json → Bool
  out_error (ok v) = false
  out_error (err e) = is_out e

  out_error-Ends : (r : Result Json) → Ends (λ (w : Json). []) 0 r → out_error r ≡ false
  unfolding out_error
  out_error-Ends (ok v) h = refl
  out_error-Ends (err e) h = h

  -- `parse` reads every input to a value or to an error of the source: the fuel is enough.
  pub parse-ne-out_of_fuel : (input : List ℕ) → parse floats input ≢ err out_of_fuel
  unfolding parse out_error
  parse-ne-out_of_fuel input e =
      let within : Ends (λ (w : Json). []) 0 (parse floats input) =
        Ends-bind behind (λ (w : Json). []) (length input) 0
          (parse_value floats (fuel_for floats input) input) _
          (parse_value-Ends (fuel_for floats input) input (omega arith))
          (λ v k. finish-Ends v.0 (skip_ws v.1)) in
      cc (out_error-Ends (parse floats input) within, ap out_error e)
