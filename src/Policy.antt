-- ===== src/Policy.antt =====
-- src/policy.rs: the routing of a query type to levels, escalation, and the decision table. Whether a
-- confidence is at least 0.9, a test on an `f32`, is a parameter.
mod Levels
mod Examples
use subnext.Prelude.{
  ℕ, zero, suc, Bool, true, false, ◌&&◌, ◌||◌, not, Option, none, some, List, [], ◌∷◌, ◌++◌, leb,
  ◌==◌, if◌then◌else◌,
}
use subnext.Prelude.Bytes.{codes}
use subnext.Ladder.{Level, l0, l1, l2, l3, order}
use subnext.Nodes.{
  Node, Kind, kind_eq, evidence, goal, constraint, decision, calculation, open_question, Status,
  stale, superseded,
}

pub data QueryType : Type 0 where
  quote_exact : QueryType
  value_lookup : QueryType
  justify : QueryType
  recompute : QueryType
  summarize : QueryType
  open_query : QueryType

abbrev query_as_str : QueryType → List ℕ
query_as_str quote_exact = codes "quote_exact"
query_as_str value_lookup = codes "value_lookup"
query_as_str justify = codes "justify"
query_as_str recompute = codes "recompute"
query_as_str summarize = codes "summarize"
query_as_str open_query = codes "open"

abbrev pub routing : QueryType → List Level
routing quote_exact = l0 ∷ l1 ∷ l2 ∷ []
routing value_lookup = l2 ∷ l1 ∷ l0 ∷ []
routing justify = l2 ∷ l1 ∷ l0 ∷ []
routing recompute = l3 ∷ l2 ∷ l0 ∷ []
routing summarize = l1 ∷ l2 ∷ l0 ∷ []
routing open_query = l2 ∷ l1 ∷ l0 ∷ []

abbrev is_quote : QueryType → Bool
is_quote quote_exact = true
is_quote _ = false

abbrev level_eq : Level → Level → Bool
level_eq a b = order a == order b

-- `available.contains(&level)`
pub has_level : List Level → Level → Bool
has_level [] level = false
has_level (l ∷ ls) level = level_eq l level || has_level ls level

pub record Decision : Type 0 where
  pub level : Option Level
  pub admitted : Bool
  recompute : Bool
  reason : List ℕ

-- `available.first().copied().unwrap_or(Level::L2)`, where the loop finds none.
abbrev pub or_first : Option Level → List Level → Level
or_first (some level) available = level
or_first none [] = l2
or_first none (level ∷ levels) = level

abbrev level_reason : Level → List ℕ
level_reason l0 = codes "query needs exact wording"
level_reason l1 = codes "referenced for gist only"
level_reason l2 = codes "compact state object is sufficient"
level_reason l3 = codes "answer is a function of known inputs"

abbrev refused : Bool → List ℕ → Decision
refused again why = record { level = none; admitted = false; recompute = again; reason = why }

-- The rows of the table below the two for the status.
abbrev planned : Bool → Level → Decision
planned false level = refused false (codes "not referenced by current plan")
planned true level = record {
  level = some level;
  admitted = true;
  recompute = false;
  reason = level_reason level;
}

-- The decision table, by the status, the plan and the preferred level. The dash of the first reason is
-- U+2014, in UTF-8.
pub decide_for : Status → Bool → Level → Decision
decide_for stale in_plan level =
    refused true
      (codes "stale " ++ (0xe2 ∷ 0x80 ∷ 0x94 ∷ codes " recompute or re-ground before admitting"))
decide_for superseded in_plan level = refused false (codes "superseded")
decide_for _ in_plan level = planned in_plan level

module _ (confident : ℕ → Bool) where
  prefers_compact : Node → QueryType → Bool
  prefers_compact node qtype =
      not (is_quote qtype) && (not (kind_eq node.kind evidence) && confident node.confidence)

  -- The loop of `preferred_level` over the routing order.
  pub first_level : Node → QueryType → List Level → List Level → Option Level
  unfolding prefers_compact has_level
  first_level node qtype available [] = none
  first_level node qtype available (level ∷ levels) =
      let rest = first_level node qtype available levels in
      if has_level available level
      then if level_eq level l0 && prefers_compact node qtype then rest else some level
      else rest

  pub preferred_level : Node → QueryType → List Level → Level
  unfolding first_level
  preferred_level node qtype available =
      or_first (first_level node qtype available (routing qtype)) available

  pub decide : Node → QueryType → List Level → Bool → Decision
  unfolding preferred_level decide_for
  decide node qtype available in_plan =
      decide_for node.status in_plan (preferred_level node qtype available)

-- `routing()[..2]`
abbrev first_two : List Level → List Level
first_two (a ∷ b ∷ levels) = a ∷ b ∷ []
first_two levels = levels

pub sufficient : Level → QueryType → Bool
unfolding has_level
sufficient level qtype =
    if is_quote qtype then level_eq level l0 else has_level (first_two (routing qtype)) level

abbrev next_richer : Level → Option Level
next_richer l2 = some l1
next_richer l1 = some l0
next_richer l3 = some l0
next_richer l0 = none

-- The loop of `escalation_target`, with fuel for its levels.
pub find_richer : ℕ → List Level → Option Level → Option Level
unfolding has_level
find_richer zero available target = none
find_richer (suc fuel) available none = none
find_richer (suc fuel) available (some level) =
    let rest = find_richer fuel available (next_richer level) in
    if has_level available level then some level else rest

pub escalation_target : Level → List Level → Option Level
unfolding find_richer
escalation_target current available = find_richer 3 available (next_richer current)

-- `should_deescalate`, by the field of the policy and the node.
abbrev should_deescalate : ℕ → Node → Bool
should_deescalate deescalate_after node =
    leb deescalate_after node.meta.l0_reads && node.meta.l0_yield == 0

abbrev pinned_kinds : QueryType → List Kind
pinned_kinds justify = goal ∷ constraint ∷ decision ∷ []
pinned_kinds recompute = goal ∷ constraint ∷ calculation ∷ []
pinned_kinds open_query = goal ∷ constraint ∷ open_question ∷ []
pinned_kinds _ = goal ∷ constraint ∷ []
