-- ===== src/Spans/Chunk.antt =====
-- src/spans.rs: the spans of a document cut its text, and what is in no span is blank.
use subnext.Prelude.{
  ◌≡◌, refl, sym, ap, subst, ◌∙◌, ◌⊎◌, ℕ, zero, suc, ◌+◌, ◌-◌, ◌≤◌, ◌<◌, true, List, [], ◌∷◌, ◌++◌,
  length, length-append, length-drop, length-take, take-append-drop, take, drop, drop-all,
  take-append, drop-append, append_assoc, append-nil, ltb, leb, ◌&&◌, arith, All, Bool-cases, inl,
  inr,
}
use subnext.Text.{sentence_ranges}
use subnext.Text.Split.{Split, done, gap, range, length-of, Split-append, Split-at, Split-whole}
use subnext.Text.Runs.{Spaces}
use subnext.Text.Ranges.{paragraph_ranges-Split, sentence_ranges-Split}
use subnext.Spans.{gather, block_spans, chunk_blocks, chunk}
use subnext.Spans.Slices.{slice, char_count, is_blank}

-- Bytes that no span has to address: white space between paragraphs, or a blank paragraph.
pub Unaddressed : List ℕ → Type 0
Unaddressed w = Spaces w ⊎ (is_blank w ≡ true)

-- The starts of the ranges lie in the text.
StartsIn : ℕ → List (ℕ × ℕ) → Type 0
StartsIn n ranges = All (λ (r : ℕ × ℕ). r.0 ≤ n) ranges

StartsIn-of :
    {Gap : List ℕ → Type 0} {i : ℕ} {s : List ℕ} {ranges : List (ℕ × ℕ)} (n : ℕ)
    → Split Gap i s ranges
    → i + length s ≤ n
    → StartsIn n ranges
unfolding StartsIn
StartsIn-of n done h = tt
StartsIn-of {s = s} n (gap {rest = rest} w e je g d) h =
    StartsIn-of n d (omega (arith, length-of s w rest e))
StartsIn-of {s = s} n (range {rest = rest} piece e je p d) h =
    (omega arith, StartsIn-of n d (omega (arith, length-of s piece rest e)))

drop-drop : (n a b : ℕ) (xs : List ℕ) → b ≡ a + n → drop n (drop a xs) ≡ drop b xs
drop-drop n zero b xs e = ap (λ k. drop k xs) (omega arith)
drop-drop n (suc a) zero xs e = absurd (omega arith)
drop-drop n (suc a) (suc b) [] e = drop-all n [] (omega arith)
drop-drop n (suc a) (suc b) (x ∷ xs) e = drop-drop n a b xs (omega arith)

slice-drop : (a b : ℕ) (xs : List ℕ) → a ≤ b → drop a xs ≡ slice xs a b ++ drop b xs
unfolding slice
slice-drop a b xs h =
    sym (take-append-drop (b - a) (drop a xs))
    ∙ ap (λ t. take (b - a) (drop a xs) ++ t) (drop-drop (b - a) a b xs (omega arith))

length-slice : (a b : ℕ) (xs : List ℕ) → a ≤ b → b ≤ length xs → length (slice xs a b) ≡ b - a
unfolding slice
length-slice a b xs h k = omega (arith, length-take (b - a) (drop a xs), length-drop a xs)

slice-piece :
    (pre piece rest : List ℕ) (i j : ℕ)
    → i ≡ length pre
    → j ≡ i + length piece
    → slice (pre ++ (piece ++ rest)) i j ≡ piece
unfolding slice
slice-piece pre piece rest i j e je =
    rw (drop-append i pre (piece ++ rest) (sym e)) (take-append (j - i) piece rest (omega arith))

gather-Split :
    (limit base : ℕ) (block : List ℕ) (sentences : List (ℕ × ℕ)) (buf_start buf_len : ℕ)
    → StartsIn (length block) sentences
    → buf_start ≤ length block
    → Split Unaddressed
        (base + buf_start)
        (drop buf_start block)
        (gather limit base block sentences buf_start buf_len)
unfolding gather StartsIn
gather-Split limit base block [] buf_start buf_len h b =
    elim (Bool-cases (ltb buf_start (length block))) [
      | inl more ↦ rw more (
          Split-whole (base + buf_start) (base + length block) (drop buf_start block)
            (omega (arith, length-drop buf_start block))
            (let lt : buf_start < length block = ground arith in
              omega (arith, length-drop buf_start block)))
      | inr none_left ↦ rw (none_left, drop-all buf_start block (ground arith)) done
    ]
gather-Split limit base block ((s, e) ∷ sentences) buf_start buf_len (hs, hr) b =
    let len = char_count (slice block s e) in
    elim (Bool-cases (ltb limit (buf_len + len) && ltb buf_start s)) [
      | inl cut ↦
          let lt : buf_start < s = ground arith in
          rw cut (
            range (slice block buf_start s) (slice-drop buf_start s block (omega arith))
              (omega (arith, length-slice buf_start s block (omega arith) hs))
              (omega (arith, length-slice buf_start s block (omega arith) hs))
              (gather-Split limit base block sentences s (len + 1) hr hs))
      | inr joined ↦
          rw joined (gather-Split limit base block sentences buf_start (buf_len + (len + 1)) hr b)
    ]

block_spans-Split :
    (limit : ℕ) (text : List ℕ) (i j : ℕ) (piece : List ℕ)
    → slice text i j ≡ piece
    → j ≡ i + length piece
    → 0 < length piece
    → Split Unaddressed i piece (block_spans limit text (i, j))
unfolding block_spans Unaddressed
block_spans-Split limit text i j piece e je p = elim (Bool-cases (leb (char_count piece) limit)) [
  | inl short ↦ elim (Bool-cases (is_blank piece)) [
    | inl blank ↦ rw (e, short, blank) (gap piece (sym (append-nil piece)) je (inr blank) done)
    | inr kept ↦ rw (e, short, kept) (Split-whole i j piece je p)
  ]
  | inr long ↦
      rw (e, long)
        (Split-at (omega arith) (
          gather-Split limit i piece (sentence_ranges piece) 0 0
            (StartsIn-of (length piece) (sentence_ranges-Split piece) (omega arith)) (omega arith)))
]

chunk_blocks-Split :
    (limit : ℕ) (text : List ℕ) {i : ℕ} {s : List ℕ} {paragraphs : List (ℕ × ℕ)} (pre : List ℕ)
    → Split Spaces i s paragraphs
    → text ≡ pre ++ s
    → i ≡ length pre
    → Split Unaddressed i s (chunk_blocks limit text paragraphs)
unfolding chunk_blocks Unaddressed
chunk_blocks-Split limit text pre done e h = done
chunk_blocks-Split limit text pre (gap {rest = rest} w es je g d) e h = gap w es je (inl g) (
    chunk_blocks-Split limit text (pre ++ w) d
      (e ∙ ap (λ t. pre ++ t) es ∙ sym (append_assoc pre w rest))
      (omega (arith, length-append pre w)))
chunk_blocks-Split limit text pre
      (range {i = i} {j = j} {rest = rest} {ranges = ranges} piece es je p d) e h =
    subst
      (λ t. Split Unaddressed i t (block_spans limit text (i, j) ++ chunk_blocks limit text ranges))
      (sym es)
      (Split-append
        (block_spans-Split limit text i j piece
          (ap (λ t. slice t i j) (e ∙ ap (λ t. pre ++ t) es) ∙ slice-piece pre piece rest i j h je)
          je p)
        je
        (chunk_blocks-Split limit text (pre ++ piece) d
          (e ∙ ap (λ t. pre ++ t) es ∙ sym (append_assoc pre piece rest))
          (omega (arith, length-append pre piece))))

pub chunk-Split : (limit : ℕ) (text : List ℕ) → Split Unaddressed 0 text (chunk limit text)
unfolding chunk
chunk-Split limit text = chunk_blocks-Split limit text [] (paragraph_ranges-Split text) refl refl
