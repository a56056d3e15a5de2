-- ===== src/Text/Ranges.antt =====
-- src/text.rs: the paragraphs and the sentences of a text cut it, and the gaps are white space.
use subnext.Prelude.{
  ◌≡◌, refl, sym, ap, subst, ◌∙◌, ℕ, zero, suc, ◌+◌, ◌≤◌, ◌<◌, true, false, none, List, [], ◌∷◌,
  ◌++◌, length, length-append, append_assoc, ltb, ◌==◌, arith, Bool-cases, Option-cases, inl, inr,
}
use subnext.Text.{
  is_space, push_range, newline_run, paragraph_loop, paragraph_ranges, skip_spaces, is_terminator,
  sentence_loop, sentence_ranges,
}
use subnext.Text.Split.{Split, done, gap, range, length-of, Split-at}
use subnext.Text.Runs.{
  Spaces, Skips, Skips-refl, Skips-cons, skip_spaces-Skips, newline_run-Skips, Found,
}

newline-is_space : (c : ℕ) → (c == 10) ≡ true → is_space c ≡ true
newline-is_space c h = ground arith

-- A piece that ends at `i` is a range, unless it is empty.
push_range-Split :
    (start i : ℕ) (p rest : List ℕ) (ranges : List (ℕ × ℕ))
    → i ≡ start + length p
    → Split Spaces i rest ranges
    → Split Spaces start (p ++ rest) (push_range start i ranges)
push_range-Split start i [] rest ranges e d =
    let low : ltb start i ≡ false = ground arith in rw low (Split-at (omega arith) d)
push_range-Split start i (x ∷ p) rest ranges e d =
    let high : ltb start i ≡ true = ground arith in rw high (range (x ∷ p) refl e (omega arith) d)

Skips-length :
    (i : ℕ) (s : List ℕ) (j : ℕ) (rest : List ℕ) → Skips i s j rest → length rest ≤ length s
Skips-length i s j rest (w, e, je, h) = omega (arith, length-of s w rest e)

-- What follows a gap is cut.
push_gap-Split :
    (start i : ℕ) (p s : List ℕ) (j : ℕ) (rest : List ℕ) (ranges : List (ℕ × ℕ))
    → i ≡ start + length p
    → Skips i s j rest
    → Split Spaces j rest ranges
    → Split Spaces start (p ++ s) (push_range start i ranges)
push_gap-Split start i p s j rest ranges e (w, es, je, h) d =
    push_range-Split start i p s ranges e (gap w es je h d)

-- The piece grows.
grow-Split :
    (start : ℕ) (p w s rest : List ℕ) (ranges : List (ℕ × ℕ))
    → s ≡ w ++ rest
    → Split Spaces start ((p ++ w) ++ rest) ranges
    → Split Spaces start (p ++ s) ranges
grow-Split start p w s rest ranges e d =
    subst (λ t. Split Spaces start t ranges) (append_assoc p w rest ∙ ap (λ t. p ++ t) (sym e)) d

skip_spaces-length :
    (i c : ℕ) (s : List ℕ) → is_space c ≡ true → length (skip_spaces i (c ∷ s)).1 ≤ length s
unfolding skip_spaces
skip_spaces-length i c s h =
    rw h (Skips-length (suc i) s _ _ (skip_spaces-Skips (suc i) s (suc i) s (Skips-refl (suc i) s)))

sentence_loop-Split :
    (fuel start i : ℕ) (p s : List ℕ)
    → length s < fuel
    → i ≡ start + length p
    → Split Spaces start (p ++ s) (sentence_loop fuel start i s)
unfolding sentence_loop
sentence_loop-Split zero start i p s f e = absurd (omega arith)
sentence_loop-Split (suc fuel) start i p [] f e = push_range-Split start i p [] [] e done
sentence_loop-Split (suc fuel) start i p (c ∷ s) f e =
    let longer : suc i ≡ start + length (p ++ (c ∷ [])) = omega (arith, length-append p (c ∷ [])) in
    elim (Bool-cases (c == 10)) [
      | inl nl ↦ rw nl (
          push_gap-Split start i p (c ∷ s) _ _ _ e
            (skip_spaces-Skips i (c ∷ s) i (c ∷ s) (Skips-refl i (c ∷ s)))
            (sentence_loop-Split fuel _ _ [] _
              (omega (arith, skip_spaces-length i c s (newline-is_space c nl))) (omega arith)))
      | inr other ↦ elim (Bool-cases (is_terminator c s)) [
        | inl t ↦
            rw (other, t)
              (grow-Split start p (c ∷ []) (c ∷ s) s _ refl (
                push_gap-Split start (suc i) (p ++ (c ∷ [])) s _ _ _ longer
                  (skip_spaces-Skips (suc i) s (suc i) s (Skips-refl (suc i) s))
                  (sentence_loop-Split fuel _ _ [] _
                    (omega (
                      arith,
                      Skips-length (suc i) s _ _
                          (skip_spaces-Skips (suc i) s (suc i) s (Skips-refl (suc i) s)),
                    ))
                    (omega arith))))
        | inr plain ↦
            rw (other, plain)
              (grow-Split start p (c ∷ []) (c ∷ s) s _ refl
                (sentence_loop-Split fuel start (suc i) (p ++ (c ∷ [])) s (omega arith) longer))
      ]
    ]

paragraph_loop-Split :
    (fuel pos i : ℕ) (p s : List ℕ)
    → length s < fuel
    → i ≡ pos + length p
    → Split Spaces pos (p ++ s) (paragraph_loop fuel pos i s)
unfolding paragraph_loop
paragraph_loop-Split zero pos i p s f e = absurd (omega arith)
paragraph_loop-Split (suc fuel) pos i p [] f e = push_range-Split pos i p [] [] e done
paragraph_loop-Split (suc fuel) pos i p (c ∷ s) f e =
    let longer : suc i ≡ pos + length (p ++ (c ∷ [])) = omega (arith, length-append p (c ∷ [])) in
    let run = newline_run-Skips (suc i) s (suc i) none s (Skips-refl (suc i) s) tt in
    elim (Bool-cases (c == 10)) [
      | inr other ↦ rw other (
          grow-Split pos p (c ∷ []) (c ∷ s) s _ refl
            (paragraph_loop-Split fuel pos (suc i) (p ++ (c ∷ [])) s (omega arith) longer))
      | inl nl ↦ elim (Option-cases (newline_run (suc i) none s).0) [
        | inl none_found ↦
            rw (nl, none_found)
              (let (w, es, je, h) = run.1 in
                grow-Split pos p (c ∷ w) (c ∷ s) _ _ (ap (λ t. c ∷ t) es) (
                  paragraph_loop-Split fuel pos _ (p ++ (c ∷ w)) _
                    (omega (arith, Skips-length (suc i) s _ _ run.1))
                    (omega (arith, length-append p (c ∷ w)))))
        | inr (end, found) ↦
            let skips : Skips (suc i) s (suc end.0) end.1 =
              subst (λ o. Found (suc i) s o) found run.0 in
            rw (nl, found)
              (push_gap-Split pos i p (c ∷ s) _ _ _ e
                (Skips-cons i s _ c _ (newline-is_space c nl) skips)
                (paragraph_loop-Split fuel _ _ [] _
                  (omega (arith, Skips-length (suc i) s _ _ skips)) (omega arith)))
      ]
    ]

pub sentence_ranges-Split : (text : List ℕ) → Split Spaces 0 text (sentence_ranges text)
unfolding sentence_ranges
sentence_ranges-Split text =
    sentence_loop-Split (suc (length text)) 0 0 [] text (omega arith) (omega arith)

pub paragraph_ranges-Split : (text : List ℕ) → Split Spaces 0 text (paragraph_ranges text)
unfolding paragraph_ranges
paragraph_ranges-Split text =
    paragraph_loop-Split (suc (length text)) 0 0 [] text (omega arith) (omega arith)

-- The paragraphs of a text cut it, and so do its sentences: the ranges follow each other and lie in the
-- text, none is empty, and every byte that is in no range is white space.
pub ranges-Split :
    (text : List ℕ)
    → Split Spaces 0 text (paragraph_ranges text) × Split Spaces 0 text (sentence_ranges text)
ranges-Split text = (paragraph_ranges-Split text, sentence_ranges-Split text)
