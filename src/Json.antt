-- ===== src/Json.antt =====
-- src/json.rs: the JSON reader and writer. A string is the list of its characters, as code points.
-- The order of two strings, which Rust takes by their UTF-8 bytes, is that of their code points.
pub mod Write
pub mod Read
mod Ends
pub mod Total
mod Strings
mod Steps
mod Examples
pub mod RoundTrip
pub mod Canonical
use subnext.Prelude.{ℕ, Bool, true, false, Option, none, some, List, [], ◌∷◌, if◌then◌else◌}
use subnext.Prelude.Bytes.{bytes_eq}

-- What the program uses of `f64`, whose values are their bit patterns: the test of the writer,
-- `fract() == 0.0 && abs() < 1e15`, the text of `n as i64`, the text of `n`, `str::parse::<f64>` and
-- `is_finite`.
pub record Floats : Type 0 where
  pub is_small_integer : ℕ → Bool
  pub show_integer : ℕ → List ℕ
  pub show : ℕ → List ℕ
  pub read : List ℕ → Option ℕ
  pub is_finite : ℕ → Bool

-- The lists of an array and of an object are types of their own.
mutual
  pub data Json : Type 0 where
    null : Json
    boolean : Bool → Json
    num : ℕ → Json
    str : List ℕ → Json
    arr : Items → Json
    obj : Pairs → Json

  pub data Items : Type 0 where
    nil : Items
    cons : Json → Items → Items

  pub data Pairs : Type 0 where
    end : Pairs
    pair : List ℕ → Json → Pairs → Pairs

unfoldable pub find : Pairs → List ℕ → Option Json
find end key = none
find (pair k v ps) key = if bytes_eq k key then some v else find ps key

unfoldable pub get : Json → List ℕ → Option Json
unfolding find
get (obj ps) key = find ps key
get _ key = none

unfoldable pub as_str : Json → Option (List ℕ)
as_str (str s) = some s
as_str _ = none

unfoldable pub as_f64 : Json → Option ℕ
as_f64 (num n) = some n
as_f64 _ = none

unfoldable pub as_bool : Json → Option Bool
as_bool (boolean b) = some b
as_bool _ = none

as_array : Json → Option Items
as_array (arr items) = some items
as_array _ = none

unfoldable strings : Items → List (List ℕ)
unfolding as_str
strings nil = []
strings (cons v vs) = let rest = strings vs in elim (as_str v) [ none ↦ rest | some s ↦ s ∷ rest ]

unfoldable pub string_list : Json → List (List ℕ)
unfolding strings as_array
string_list v = elim (as_array v) [ none ↦ [] | some items ↦ strings items ]
