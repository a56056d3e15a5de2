-- ===== src/Text/Runs.antt =====
-- src/text.rs: the loops over white space.
use subnext.Prelude.{
  ◌≡◌, refl, ap, sym, ◌∙◌, ℕ, suc, ◌+◌, true, Option, none, some, List, [], ◌∷◌, ◌++◌, length,
  length-append, append_assoc, if◌then◌else◌, arith, All, ◌==◌, Bool-cases, inl, inr,
}
use subnext.Text.{is_space, newline_run, skip_spaces}

-- Bytes that the source takes for white space.
pub Spaces : List ℕ → Type 0
Spaces w = All (λ (c : ℕ). is_space c ≡ true) w

-- The loop goes from `i` to `j` over white space, and leaves `rest`.
abbrev pub Skips : ℕ → List ℕ → ℕ → List ℕ → Type 0
Skips i s j rest = (w : List ℕ) × (s ≡ w ++ rest) × (j ≡ i + length w) × Spaces w

Spaces-snoc : (w : List ℕ) (c : ℕ) → Spaces w → is_space c ≡ true → Spaces (w ++ (c ∷ []))
unfolding Spaces
Spaces-snoc [] c h e = (e, tt)
Spaces-snoc (x ∷ w) c h e = (h.0, Spaces-snoc w c h.1 e)

pub Skips-refl : (i : ℕ) (s : List ℕ) → Skips i s i s
unfolding Spaces
Skips-refl i s = ([], refl, omega arith, tt)

Skips-snoc :
    (i : ℕ) (s : List ℕ) (j c : ℕ) (rest : List ℕ)
    → Skips i s j (c ∷ rest)
    → is_space c ≡ true
    → Skips i s (suc j) rest
Skips-snoc i s j c rest (w, e, je, h) b = (
  w ++ (c ∷ []),
  e ∙ sym (append_assoc w (c ∷ []) rest),
  omega (arith, length-append w (c ∷ [])),
  Spaces-snoc w c h b,
)

pub skip_spaces-Skips :
    (i : ℕ) (s : List ℕ) (j : ℕ) (t : List ℕ)
    → Skips i s j t
    → Skips i s (skip_spaces j t).0 (skip_spaces j t).1
unfolding skip_spaces
skip_spaces-Skips i s j [] h = h
skip_spaces-Skips i s j (c ∷ t) h = elim (Bool-cases (is_space c)) [
  | inl e ↦ rw e (skip_spaces-Skips i s (suc j) t (Skips-snoc i s j c t h e))
  | inr e ↦ rw e h
]

-- What the loop of `newline_run` has found at `j`: the bytes behind the last newline.
abbrev pub Found : ℕ → List ℕ → Option (ℕ × List ℕ) → Type 0
Found i s none = Unit
Found i s (some e) = Skips i s (suc e.0) e.1

Found-if :
    (i : ℕ) (s : List ℕ) (j c : ℕ) (last : Option (ℕ × List ℕ)) (t : List ℕ)
    → Found i s last
    → Skips i s (suc j) t
    → Found i s (if c == 10 then some (j, t) else last)
Found-if i s j c last t f h = elim (Bool-cases (c == 10)) [ inl e ↦ rw e h | inr e ↦ rw e f ]

pub newline_run-Skips :
    (i : ℕ) (s : List ℕ) (j : ℕ) (last : Option (ℕ × List ℕ)) (t : List ℕ)
    → Skips i s j t
    → Found i s last
    → Found i s (newline_run j last t).0
      × Skips i s (newline_run j last t).1.0 (newline_run j last t).1.1
unfolding newline_run
newline_run-Skips i s j last [] h f = (f, h)
newline_run-Skips i s j last (c ∷ t) h f = elim (Bool-cases (is_space c)) [
  | inl e ↦ rw e (
      newline_run-Skips i s (suc j) _ t (Skips-snoc i s j c t h e)
        (Found-if i s j c last t f (Skips-snoc i s j c t h e)))
  | inr e ↦ rw e (f, h)
]

pub Skips-cons :
    (i : ℕ) (s : List ℕ) (j c : ℕ) (rest : List ℕ)
    → is_space c ≡ true
    → Skips (suc i) s j rest
    → Skips i (c ∷ s) j rest
unfolding Spaces
Skips-cons i s j c rest b (w, e, je, h) = (c ∷ w, ap (λ t. c ∷ t) e, omega arith, (b, h))
