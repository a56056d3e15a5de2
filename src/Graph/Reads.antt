-- ===== src/Graph/Reads.antt =====
-- src/graph.rs: what a read of the graph finds behind a write.
use subnext.Prelude.{
  ◌≡◌, refl, ℕ, zero, suc, ◌≤◌, true, false, ◌&&◌, List, [], ◌∷◌, ◌++◌, length, get_or, set, ltb,
  ◌==◌, if◌then◌else◌, arith,
}
use subnext.Nodes.{Node, Status}
use subnext.Graph.State.{MemoryGraph, node_at, set_node, has, blank, set_status, remove, push_new}

-- A read of a field behind a write of a list.
module _ {ℓ κ} {A : Type ℓ} {B : Type κ} (field : A → B) where
  pub get_or-set :
      (l : List A) (c i : ℕ) (v d : A)
      → field (get_or (set l c v) i d)
        ≡ (if c == i && ltb c (length l) then field v else field (get_or l i d))
  get_or-set [] c i v d = ground arith
  get_or-set (x ∷ l) zero zero v d = ground arith
  get_or-set (x ∷ l) zero (suc i) v d = ground arith
  get_or-set (x ∷ l) (suc c) zero v d = ground arith
  get_or-set (x ∷ l) (suc c) (suc i) v d = ground (arith, get_or-set l c i v d)

  pub get_or-set_same :
      (l : List A) (c i : ℕ) (v d : A)
      → field v ≡ field (get_or l c d)
      → field (get_or (set l c v) i d) ≡ field (get_or l i d)
  get_or-set_same [] c i v d h = refl
  get_or-set_same (x ∷ l) zero zero v d h = h
  get_or-set_same (x ∷ l) zero (suc i) v d h = refl
  get_or-set_same (x ∷ l) (suc c) zero v d h = refl
  get_or-set_same (x ∷ l) (suc c) (suc i) v d h = get_or-set_same l c i v d h

pub status-set_node :
    (g : MemoryGraph) (c i : ℕ) (n : Node)
    → (node_at (set_node g c n) i).status
      ≡ (if c == i && ltb c (length g.nodes) then n.status else (node_at g i).status)
status-set_node g c i n = get_or-set (λ (m : Node). m.status) g.nodes c i n blank

pub get_or-past {ℓ} : {A : Type ℓ} (l : List A) (i : ℕ) (d : A) → length l ≤ i → get_or l i d ≡ d
get_or-past [] i d h = refl
get_or-past (x ∷ l) zero d h = absurd (omega arith)
get_or-past (x ∷ l) (suc i) d h = get_or-past l i d (omega arith)

pub has-append : (i c : ℕ) (l : List ℕ) → has i (l ++ (c ∷ [])) ≡ (if c == i then true else has i l)
unfolding has
has-append i c [] = refl
has-append i c (x ∷ l) = ground (arith, has-append i c l)

pub has-remove : (i c : ℕ) (l : List ℕ) → has i (remove c l) ≡ (if c == i then false else has i l)
unfolding has remove
has-remove i c [] = ground arith
has-remove i c (x ∷ l) = ground (arith, has-remove i c l)

pub has-push_new :
    (i c : ℕ) (l : List ℕ) → has i (push_new c l) ≡ (if c == i then true else has i l)
has-push_new i c l = ground (arith, has-append i c l)

pub status-set_status :
    (g : MemoryGraph) (c i : ℕ) (s : Status)
    → (node_at (set_status g c s) i).status
      ≡ (if c == i && ltb c (length g.nodes) then s else (node_at g i).status)
unfolding set_status
status-set_status g c i s =
    ground (arith, status-set_node g c i (record (node_at g c) { status = s }))

pub kind-set_status :
    (g : MemoryGraph) (c i : ℕ) (s : Status)
    → (node_at (set_status g c s) i).kind ≡ (node_at g i).kind
unfolding set_status
kind-set_status g c i s = ground (
  arith,
  get_or-set_same (λ (m : Node). m.kind) g.nodes c i (record (node_at g c) { status = s }) blank
      refl,
)
