-- ===== src/Ladder.antt =====
-- src/ladder.rs: the levels at which a node can be shown.
use subnext.Prelude.{ℕ, Bool, ltb}

pub data Level : Type 0 where
  l0 : Level
  l1 : Level
  l2 : Level
  l3 : Level

abbrev pub order : Level → ℕ
order l2 = 0
order l1 = 1
order l3 = 2
order l0 = 3

abbrev pub cheaper_than : Level → Level → Bool
cheaper_than a b = ltb (order a) (order b)
