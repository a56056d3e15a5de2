-- ===== src/Json/Write.antt =====
-- src/json.rs: `to_json_string` and `to_canonical_string`. Text that the source pushes to `out` is
-- returned.
use subnext.Prelude.{
  ℕ, ◌/◌, ◌%◌, true, false, List, [], ◌∷◌, ◌++◌, ltb, ◌==◌, if◌then◌else◌, get_or,
}
use subnext.Prelude.Bytes.{codes}
use subnext.Hash.Hex.{hex_digits}
use subnext.Json.{
  Floats, Json, null, boolean, num, str, arr, obj, Items, nil, cons, Pairs, end, pair,
}

-- `format!("\\u{:04x}", c)`, for a control character
abbrev unicode_escape : ℕ → List ℕ
unicode_escape c =
    b'\\'
    ∷ b'u'
    ∷ get_or hex_digits (c / 4096 % 16) 0
    ∷ get_or hex_digits (c / 256 % 16) 0
    ∷ get_or hex_digits (c / 16 % 16) 0
    ∷ get_or hex_digits (c % 16) 0
    ∷ []

unfoldable pub write_char : ℕ → List ℕ
write_char c =
    if c == b'"'
    then b'\\' ∷ b'"' ∷ []
    else if c == b'\\'
    then b'\\' ∷ b'\\' ∷ []
    else if c == 10
    then b'\\' ∷ b'n' ∷ []
    else if c == 13
    then b'\\' ∷ b'r' ∷ []
    else if c == 9
    then b'\\' ∷ b't' ∷ []
    else if ltb c 0x20
    then unicode_escape c
    else c ∷ []

unfoldable pub write_chars : List ℕ → List ℕ
unfolding write_char
write_chars [] = []
write_chars (c ∷ cs) = write_char c ++ write_chars cs

unfoldable pub write_string : List ℕ → List ℕ
unfolding write_chars
write_string s = b'"' ∷ (write_chars s ++ (b'"' ∷ []))

module _ (floats : Floats) where
  unfoldable pub write_number : ℕ → List ℕ
  write_number n = if floats.is_small_integer n then floats.show_integer n else floats.show n

  unfoldable mutual
    unfolding write_number write_string

    pub write : Json → List ℕ
    write null = codes "null"
    write (boolean true) = codes "true"
    write (boolean false) = codes "false"
    write (num n) = write_number n
    write (str s) = write_string s
    write (arr nil) = b'[' ∷ b']' ∷ []
    write (arr (cons v vs)) = b'[' ∷ (write v ++ write_items vs)
    write (obj end) = b'{' ∷ b'}' ∷ []
    write (obj (pair k v ps)) = b'{' ∷ (write_string k ++ (b':' ∷ (write v ++ write_pairs ps)))

    -- The rest of an array, behind an item.
    pub write_items : Items → List ℕ
    write_items nil = b']' ∷ []
    write_items (cons v vs) = b',' ∷ (write v ++ write_items vs)

    -- The rest of an object, behind a pair.
    pub write_pairs : Pairs → List ℕ
    write_pairs end = b'}' ∷ []
    write_pairs (pair k v ps) = b',' ∷ (write_string k ++ (b':' ∷ (write v ++ write_pairs ps)))
