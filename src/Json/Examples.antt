-- ===== src/Json/Examples.antt =====
-- src/json.rs: the theorems at a small value, with numbers of one digit for the floats.
use subnext.Prelude.{
  ◌≡◌, ◌≢◌, refl, ℕ, ◌+◌, ◌-◌, true, Option, none, some, List, [], ◌∷◌, leb, ◌&&◌, if◌then◌else◌,
  arith,
}
use subnext.Prelude.Bytes.{codes, bytes_eq_iff}
use subnext.Json.{Floats, Json, null, boolean, num, str, arr, obj, nil, cons, Pairs, end, pair, get}
use subnext.Json.Write.{write, write_number}
use subnext.Json.Read.{parse, ok, err, out_of_fuel}
use subnext.Json.Total.{parse-ne-out_of_fuel}
use subnext.Json.RoundTrip.{Reads, parse-write}
use subnext.Json.Canonical.{write_canonical, write_canonical, write_canonical-get}

abbrev read_digit : List ℕ → Option ℕ
read_digit (c ∷ []) = if leb b'0' c && leb c b'9' then some (c - b'0') else none
read_digit _ = none

abbrev digits : Floats
digits = record {
  is_small_integer = λ n. true;
  show_integer = λ n. (b'0' + n) ∷ [];
  show = λ n. [];
  read = read_digit;
  is_finite = λ n. true;
}

abbrev sample : Json
sample = obj (
    pair (codes "a") (arr (cons (num 3) (cons (str (10 ∷ b'"' ∷ [])) (cons null nil))))
      (pair (codes "b") (boolean true) end))

sample-write : write digits sample ≡ codes "{\"a\":[3,\"\\n\\\"\",null],\"b\":true}"
unfolding write
sample-write = refl

sample-Reads : Reads digits sample
unfolding Reads write_number
sample-Reads = (((omega arith, (refl, tt), refl), (tt, (tt, tt))), (tt, tt))

parse-write_example : parse digits (write digits sample) ≡ ok sample
parse-write_example = parse-write digits sample sample-Reads

parse-ne-out_of_fuel_example : parse digits (codes "[1,") ≢ err out_of_fuel
parse-ne-out_of_fuel_example = parse-ne-out_of_fuel digits (codes "[1,")

-- A sign is taken for a hex digit in an escape.
signed_escape : parse digits (codes "\"\\u+041\"") ≡ ok (str (0x41 ∷ []))
unfolding parse
signed_escape = refl

abbrev key_a : List ℕ
key_a = 97 ∷ []

abbrev key_b : List ℕ
key_b = 98 ∷ []

abbrev in_order : Pairs
in_order = pair key_a (num 1) (pair key_b null end)

abbrev swapped : Pairs
swapped = pair key_b null (pair key_a (num 1) (pair key_b (num 2) end))

same_get : (key : List ℕ) → get (obj in_order) key ≡ get (obj swapped) key
unfolding get
same_get key = ground (arith, bytes_eq_iff key_a key, bytes_eq_iff key_b key)

write_canonical-get_example :
    write_canonical digits (obj in_order) ≡ write_canonical digits (obj swapped)
write_canonical-get_example = write_canonical-get digits in_order swapped same_get
