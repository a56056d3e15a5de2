-- ===== src/Text.antt =====
-- src/text.rs: the boundaries of paragraphs and sentences, over the UTF-8 bytes of a text. A loop keeps
-- its position and the bytes that are left from there.
pub mod Runs
pub mod Split
pub mod Ranges
use subnext.Prelude.{
  ℕ, zero, suc, Bool, ◌&&◌, ◌||◌, true, false, Option, none, some, List, [], ◌∷◌, length, ltb, leb,
  ◌==◌, if◌then◌else◌,
}

-- `(byte as char).is_whitespace()`: the byte is read as the code point of that number.
abbrev pub is_space : ℕ → Bool
is_space c = leb 9 c && leb c 13 || (c == 32 || (c == 0x85 || c == 0xa0))

-- A range is kept unless it is empty.
abbrev pub push_range : ℕ → ℕ → List (ℕ × ℕ) → List (ℕ × ℕ)
push_range start end ranges = if ltb start end then (start, end) ∷ ranges else ranges

-- The inner loop of `paragraph_ranges`, from `j`: the last newline, with the bytes behind it, and where
-- the loop stops.
pub newline_run : ℕ → Option (ℕ × List ℕ) → List ℕ → Option (ℕ × List ℕ) × (ℕ × List ℕ)
newline_run j last [] = (last, (j, []))
newline_run j last (c ∷ s) =
    let rest = newline_run (suc j) (if c == 10 then some (j, s) else last) s in
    if is_space c then rest else (last, (j, c ∷ s))

-- The outer loop of `paragraph_ranges`, with fuel. The inner loop stops behind its start, so
-- `j.max(i + 1)` is `j`.
pub paragraph_loop : ℕ → ℕ → ℕ → List ℕ → List (ℕ × ℕ)
unfolding newline_run
paragraph_loop zero pos i s = []
paragraph_loop (suc fuel) pos i [] = push_range pos i []
paragraph_loop (suc fuel) pos i (c ∷ s) =
    let plain = paragraph_loop fuel pos (suc i) s in
    let run = newline_run (suc i) none s in
    let separated : List (ℕ × ℕ) = elim run.0 [
      | some e ↦ push_range pos i (paragraph_loop fuel (suc e.0) (suc e.0) e.1)
      | none ↦ paragraph_loop fuel pos run.1.0 run.1.1
    ] in
    if c == 10 then separated else plain

unfoldable pub paragraph_ranges : List ℕ → List (ℕ × ℕ)
unfolding paragraph_loop
paragraph_ranges text = paragraph_loop (suc (length text)) 0 0 text

-- The inner loop of `sentence_ranges`: where it stops, and what is left.
pub skip_spaces : ℕ → List ℕ → ℕ × List ℕ
skip_spaces j [] = (j, [])
skip_spaces j (c ∷ s) = let rest = skip_spaces (suc j) s in if is_space c then rest else (j, c ∷ s)

-- The test of `terminator` for the byte behind it.
abbrev before_space : List ℕ → Bool
before_space [] = false
before_space (c ∷ s) = is_space c

abbrev pub is_terminator : ℕ → List ℕ → Bool
is_terminator c s = (c == b'.' || (c == b'!' || c == b'?')) && before_space s

-- The outer loop of `sentence_ranges`, with fuel.
pub sentence_loop : ℕ → ℕ → ℕ → List ℕ → List (ℕ × ℕ)
unfolding skip_spaces
sentence_loop zero start i s = []
sentence_loop (suc fuel) start i [] = push_range start i []
sentence_loop (suc fuel) start i (c ∷ s) =
    let next = skip_spaces i (c ∷ s) in
    let next' = skip_spaces (suc i) s in
    let at_newline = push_range start i (sentence_loop fuel next.0 next.0 next.1) in
    let at_end = push_range start (suc i) (sentence_loop fuel next'.0 next'.0 next'.1) in
    let plain = sentence_loop fuel start (suc i) s in
    if c == 10 then at_newline else if is_terminator c s then at_end else plain

unfoldable pub sentence_ranges : List ℕ → List (ℕ × ℕ)
unfolding sentence_loop
sentence_ranges text = sentence_loop (suc (length text)) 0 0 text
