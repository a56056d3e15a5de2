-- ===== src/Policy/Levels.antt =====
-- src/policy.rs: which levels the policy chooses.
use subnext.Prelude.{
  ◌≡◌, refl, ℕ, Bool, true, false, Option, none, some, List, [], ◌∷◌, arith, ==_iff,
}
use subnext.Ladder.{Level, l0, l1, l2, l3, order, cheaper_than}
use subnext.Nodes.{Node, Status, is_live, stale, superseded, fresh, contradicted, unresolved}
use subnext.Policy.{
  QueryType, routing, has_level, first_level, preferred_level, decide, decide_for, or_first,
  find_richer, escalation_target,
}

-- An escalation leads to a level that the node has and that costs more than the current one.
pub escalation_target-cheaper_than :
    (current target : Level) (available : List Level)
    → escalation_target current available ≡ some target
    → (has_level available target ≡ true) × (cheaper_than current target ≡ true)
unfolding escalation_target find_richer
escalation_target-cheaper_than l0 target available h = cc
escalation_target-cheaper_than l1 target available h = ground arith
escalation_target-cheaper_than l2 target available h = ground arith
escalation_target-cheaper_than l3 target available h = ground arith

module _ (confident : ℕ → Bool) where
  first_level-has_level :
      (node : Node) (qtype : QueryType) (available levels : List Level) (level : Level)
      → first_level confident node qtype available levels ≡ some level
      → has_level available level ≡ true
  unfolding first_level
  first_level-has_level node qtype available [] level h = cc
  first_level-has_level node qtype available (l ∷ levels) level h =
      ground (arith, first_level-has_level node qtype available levels level)

  or_first-has_level :
      (l : Level) (ls : List Level) (found : Option Level)
      → ((level : Level) → found ≡ some level → has_level (l ∷ ls) level ≡ true)
      → has_level (l ∷ ls) (or_first found (l ∷ ls)) ≡ true
  unfolding has_level
  or_first-has_level l ls none h = ground (arith, ==_iff (order l) (order l))
  or_first-has_level l ls (some level) h = h level refl

  preferred_level-has_level :
      (node : Node) (qtype : QueryType) (l : Level) (ls : List Level)
      → has_level (l ∷ ls) (preferred_level confident node qtype (l ∷ ls)) ≡ true
  unfolding preferred_level
  preferred_level-has_level node qtype l ls =
      or_first-has_level l ls (first_level confident node qtype (l ∷ ls) (routing qtype))
        (first_level-has_level node qtype (l ∷ ls) (routing qtype))

  decide_for-is_live :
      (status : Status) (in_plan : Bool) (preferred level : Level)
      → (decide_for status in_plan preferred).level ≡ some level
      → (level ≡ preferred)
        × ((decide_for status in_plan preferred).admitted ≡ true)
        × (in_plan ≡ true)
        × (is_live status ≡ true)
  unfolding decide_for
  decide_for-is_live stale in_plan preferred level h = cc
  decide_for-is_live superseded in_plan preferred level h = cc
  decide_for-is_live fresh false preferred level h = cc
  decide_for-is_live fresh true preferred level h = ground arith
  decide_for-is_live contradicted false preferred level h = cc
  decide_for-is_live contradicted true preferred level h = ground arith
  decide_for-is_live unresolved false preferred level h = cc
  decide_for-is_live unresolved true preferred level h = ground arith

  -- The decision table shows a node that has some level only if the node is in the plan and live, at a
  -- level that the node has.
  pub decide-is_live :
      (node : Node) (qtype : QueryType) (l : Level) (ls : List Level) (in_plan : Bool)
      (level : Level)
      → (decide confident node qtype (l ∷ ls) in_plan).level ≡ some level
      → (has_level (l ∷ ls) level ≡ true)
        × ((decide confident node qtype (l ∷ ls) in_plan).admitted ≡ true)
        × (in_plan ≡ true)
        × (is_live node.status ≡ true)
  unfolding decide
  decide-is_live node qtype l ls in_plan level h =
      let preferred = preferred_level confident node qtype (l ∷ ls) in
      let (same, admitted, planned, live) =
        decide_for-is_live node.status in_plan preferred level h in
      (rw same (preferred_level-has_level node qtype l ls), admitted, planned, live)
