-- ===== src/Prelude/Bytes.antt =====
-- The order of byte strings (`str::cmp` compares the bytes), and `slice::sort_by`, which is stable.
use Prim.Native.Nat.{ℕ, compare, Ordering, lt, eq, gt}
use Prim.Native.Char.{code}
use Prim.Native.String.{String}
use mathlib.Core.Path.{◌≡◌, refl}
use mathlib.Core.List.{List, [], ◌∷◌}
use mathlib.Core.Bool.{Bool, true, false}
use native.Mathlib.Omega.{arith}

-- The bytes of an ASCII text.
abbrev pub codes : String → List ℕ
codes String.[] = []
codes (String.◌∷◌ c s) = code c ∷ codes s

-- `Ordering::then`
abbrev pub then_cmp : Ordering → Ordering → Ordering
then_cmp eq o = o
then_cmp lt o = lt
then_cmp gt o = gt

unfoldable pub cmp_bytes : List ℕ → List ℕ → Ordering
cmp_bytes [] [] = eq
cmp_bytes [] (y ∷ ys) = lt
cmp_bytes (x ∷ xs) [] = gt
cmp_bytes (x ∷ xs) (y ∷ ys) = then_cmp (compare x y) (cmp_bytes xs ys)

abbrev pub bytes_eq : List ℕ → List ℕ → Bool
bytes_eq xs ys = elim (cmp_bytes xs ys) [ eq ↦ true | _ ↦ false ]

pub cmp_bytes_refl : (xs : List ℕ) → cmp_bytes xs xs ≡ eq
unfolding cmp_bytes
cmp_bytes_refl [] = refl
cmp_bytes_refl (x ∷ xs) = ground (arith, cmp_bytes_refl xs)

pub eq_of_cmp : (xs ys : List ℕ) → cmp_bytes xs ys ≡ eq → xs ≡ ys
unfolding cmp_bytes
eq_of_cmp [] [] h = refl
eq_of_cmp [] (y ∷ ys) h = cc
eq_of_cmp (x ∷ xs) [] h = cc
eq_of_cmp (x ∷ xs) (y ∷ ys) h = ground (arith, eq_of_cmp xs ys)

pub cmp_bytes_flip : (xs ys : List ℕ) → cmp_bytes xs ys ≡ gt → cmp_bytes ys xs ≡ lt
unfolding cmp_bytes
cmp_bytes_flip [] [] h = cc
cmp_bytes_flip [] (y ∷ ys) h = cc
cmp_bytes_flip (x ∷ xs) [] h = refl
cmp_bytes_flip (x ∷ xs) (y ∷ ys) h = ground (arith, cmp_bytes_flip xs ys)

pub cmp_bytes_flip_lt : (xs ys : List ℕ) → cmp_bytes xs ys ≡ lt → cmp_bytes ys xs ≡ gt
unfolding cmp_bytes
cmp_bytes_flip_lt [] [] h = cc
cmp_bytes_flip_lt [] (y ∷ ys) h = refl
cmp_bytes_flip_lt (x ∷ xs) [] h = cc
cmp_bytes_flip_lt (x ∷ xs) (y ∷ ys) h = ground (arith, cmp_bytes_flip_lt xs ys)

pub cmp_bytes_trans :
    (xs ys zs : List ℕ) → cmp_bytes xs ys ≡ lt → cmp_bytes ys zs ≡ lt → cmp_bytes xs zs ≡ lt
unfolding cmp_bytes
cmp_bytes_trans [] [] zs p q = cc
cmp_bytes_trans [] (y ∷ ys) [] p q = cc
cmp_bytes_trans [] (y ∷ ys) (z ∷ zs) p q = refl
cmp_bytes_trans (x ∷ xs) [] zs p q = cc
cmp_bytes_trans (x ∷ xs) (y ∷ ys) [] p q = cc
cmp_bytes_trans (x ∷ xs) (y ∷ ys) (z ∷ zs) p q = ground (arith, cmp_bytes_trans xs ys zs)

pub bytes_eq_refl : (xs : List ℕ) → bytes_eq xs xs ≡ true
bytes_eq_refl xs = ground (arith, cmp_bytes_refl xs)

pub bytes_eq_iff : (xs ys : List ℕ) → bytes_eq xs ys ≡ true → xs ≡ ys
bytes_eq_iff xs ys h = eq_of_cmp xs ys (ground arith)

module _ {ℓ} {A : Type ℓ} where
  -- An element goes in front of the first that does not come before it.
  unfoldable pub insert_by : (A → A → Ordering) → A → List A → List A
  insert_by cmp a [] = a ∷ []
  insert_by cmp a (x ∷ xs) = elim (cmp a x) [ gt ↦ x ∷ insert_by cmp a xs | _ ↦ a ∷ x ∷ xs ]

  unfoldable pub sort_by : (A → A → Ordering) → List A → List A
  unfolding insert_by
  sort_by cmp [] = []
  sort_by cmp (x ∷ xs) = insert_by cmp x (sort_by cmp xs)
