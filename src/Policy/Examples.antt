-- ===== src/Policy/Examples.antt =====
-- src/policy.rs: decisions for a fact and a decision.
use subnext.Prelude.{◌≡◌, refl, ℕ, Bool, true, false, some, [], ◌∷◌, ltb}
use subnext.Prelude.Bytes.{codes}
use subnext.Ladder.{l0, l1, l2, cheaper_than}
use subnext.Nodes.{Node, build_node, new_node, decision, is_live}
use subnext.Policy.{
  quote_exact, justify, has_level, escalation_target, decide, sufficient, preferred_level,
}
use subnext.Policy.Levels.{escalation_target-cheaper_than, decide-is_live}

-- `confidence >= 0.9`, on the bits of a positive `f32`.
abbrev is_sure : ℕ → Bool
is_sure bits = ltb 0x3f666665 bits

unfoldable chosen : Node
unfolding build_node
chosen = build_node (new_node decision (codes "Use B-trees"))

-- A settled decision is not promoted to raw text, but for a quote.
compact : preferred_level is_sure chosen justify (l0 ∷ l1 ∷ []) ≡ l1
unfolding preferred_level chosen
compact = refl

quoted : preferred_level is_sure chosen quote_exact (l0 ∷ l1 ∷ []) ≡ l0
unfolding preferred_level chosen
quoted = refl

quote_needs_raw : sufficient l2 quote_exact ≡ false
unfolding sufficient
quote_needs_raw = refl

shown : (decide is_sure chosen justify (l0 ∷ l1 ∷ []) true).level ≡ some l1
unfolding decide chosen
shown = refl

decide-is_live_example :
    (has_level (l0 ∷ l1 ∷ []) l1 ≡ true)
    × ((decide is_sure chosen justify (l0 ∷ l1 ∷ []) true).admitted ≡ true)
    × (true ≡ true)
    × (is_live chosen.status ≡ true)
decide-is_live_example = decide-is_live is_sure chosen justify l0 (l1 ∷ []) true l1 shown

escalated : escalation_target l2 (l2 ∷ l0 ∷ []) ≡ some l0
unfolding escalation_target
escalated = refl

escalation_target-cheaper_than_example :
    (has_level (l2 ∷ l0 ∷ []) l0 ≡ true) × (cheaper_than l2 l0 ≡ true)
escalation_target-cheaper_than_example =
    escalation_target-cheaper_than l2 l0 (l2 ∷ l0 ∷ []) escalated
