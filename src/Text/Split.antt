-- ===== src/Text/Split.antt =====
-- A specification for src/text.rs and src/spans.rs: what it is to cut a text into ranges.
use subnext.Prelude.{
  ◌≡◌, sym, ap, append-nil, subst, ◌∙◌, ℕ, ◌+◌, ◌<◌, List, [], ◌∷◌, ◌++◌, length, append_assoc,
  arith,
}
use subnext.Prelude.{length-append}

-- The bytes `s`, which begin at position `i`, are cut into the ranges: these follow each other, none is
-- empty, and the bytes that are in no range are gaps.
pub data Split (Gap : List ℕ → Type 0) : ℕ → List ℕ → List (ℕ × ℕ) → Type 0 where
  done : {i : ℕ} → Split Gap i [] []
  gap :
      {i j : ℕ} {s rest : List ℕ} {ranges : List (ℕ × ℕ)} (w : List ℕ)
      → s ≡ w ++ rest
      → j ≡ i + length w
      → Gap w
      → Split Gap j rest ranges
      → Split Gap i s ranges
  range :
      {i j : ℕ} {s rest : List ℕ} {ranges : List (ℕ × ℕ)} (piece : List ℕ)
      → s ≡ piece ++ rest
      → j ≡ i + length piece
      → 0 < length piece
      → Split Gap j rest ranges
      → Split Gap i s ((i, j) ∷ ranges)

append-of : (s w rest t : List ℕ) → s ≡ w ++ rest → s ++ t ≡ w ++ (rest ++ t)
append-of s w rest t e = ap (λ u. u ++ t) e ∙ append_assoc w rest t

pub length-of : (s w rest : List ℕ) → s ≡ w ++ rest → length s ≡ length w + length rest
length-of s w rest e = ap length e ∙ length-append w rest

module _ {Gap : List ℕ → Type 0} where
  pub Split-at :
      {i j : ℕ} {s : List ℕ} {ranges : List (ℕ × ℕ)}
      → i ≡ j
      → Split Gap i s ranges
      → Split Gap j s ranges
  Split-at {s = s} {ranges = ranges} e d = subst (λ k. Split Gap k s ranges) e d

  pub Split-append :
      {i j : ℕ} {s t : List ℕ} {ranges ranges' : List (ℕ × ℕ)}
      → Split Gap i s ranges
      → j ≡ i + length s
      → Split Gap j t ranges'
      → Split Gap i (s ++ t) (ranges ++ ranges')
  Split-append done h d' = Split-at (omega arith) d'
  Split-append {s = s} {t = t} (gap {rest = rest} w e je g d) h d' =
      gap w (append-of s w rest t e) je g (Split-append d (omega (arith, length-of s w rest e)) d')
  Split-append {s = s} {t = t} (range {rest = rest} piece e je p d) h d' =
      range piece (append-of s piece rest t e) je p
        (Split-append d (omega (arith, length-of s piece rest e)) d')

  -- A text that is one range, if it is not empty.
  pub Split-whole :
      (i j : ℕ) (s : List ℕ) → j ≡ i + length s → 0 < length s → Split Gap i s ((i, j) ∷ [])
  Split-whole i j s e p = range s (sym (append-nil s)) e p done
