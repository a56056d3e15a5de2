-- ===== src/Fit.antt =====
-- src/fit.rs: the gate that shows the whole history where it fits the window and no skill is registered.
mod Examples
use subnext.Prelude.{
  ℕ, Bool, true, false, not, ◌&&◌, ◌||◌, ◌≡◌, ◌≤◌, arith, List, [], ◌∷◌, leb, if◌then◌else◌,
}
use subnext.Nodes.{Node, Kind, skill}
use subnext.Graph.State.{MemoryGraph}

pub data Fit : Type 0 where
  bypass plan : Fit

abbrev is_skill : Kind → Bool
is_skill skill = true
is_skill _ = false

-- `nodes().iter().any(|n| n.kind == Kind::Skill)`
any_skill : List Node → Bool
any_skill [] = false
any_skill (n ∷ rest) = is_skill n.kind || any_skill rest

pub assess : MemoryGraph → ℕ → ℕ → Fit
unfolding any_skill
assess graph history_tokens budget =
    if leb history_tokens budget && not (any_skill graph.nodes) then bypass else plan

-- The gate opens only for a history within the budget in a graph without skills.
assess-bypass :
    (graph : MemoryGraph) (history_tokens budget : ℕ)
    → assess graph history_tokens budget ≡ bypass
    → (history_tokens ≤ budget) × (any_skill graph.nodes ≡ false)
unfolding assess
assess-bypass graph history_tokens budget h = ground arith
