-- ===== src/Sessions/Examples.antt =====
-- Runs of the router of src/sessions.rs with two slots, both taken, of which the first is idle. The
-- runtime is the budget that it was made with.
use subnext.Prelude.{
  ◌≡◌, refl, ℕ, ◌≤◌, ◌⊎◌, Bool, true, false, none, some, List, [], ◌∷◌, length, arith,
}
use subnext.Prelude.Bytes.{bytes_eq, cmp_bytes}
use subnext.Prelude.Dict
use subnext.Sessions.{
  SessionRouter, discard, remove_first, retain_others, contains, victim, make_room, admit, route,
}
use subnext.Sessions.Routing.{after_route, get-route, length-route}

abbrev same_budget : ℕ → ℕ
same_budget budget = budget

abbrev only_first : List ℕ → Bool
only_first id = bytes_eq id (1 ∷ [])

abbrev full : SessionRouter ℕ
full = record {
  budget = 9;
  capacity = 2;
  sessions = (1 ∷ [], 7) ∷ (2 ∷ [], 8) ∷ [];
  lru = (2 ∷ []) ∷ (1 ∷ []) ∷ [];
  evicted = 0;
}

evicts : victim same_budget only_first full.sessions (3 ∷ []) full.lru ≡ some (1 ∷ [])
unfolding victim contains Dict.get cmp_bytes
evicts = refl

lru-route : (route same_budget only_first full (3 ∷ [])).lru ≡ (2 ∷ []) ∷ (3 ∷ []) ∷ []
unfolding route admit make_room victim contains discard remove_first retain_others Dict.get
    Dict.insert cmp_bytes
lru-route = refl

get-route_example :
    (Dict.get (route same_budget only_first full (3 ∷ [])).sessions (2 ∷ [])
      ≡ after_route same_budget only_first full (3 ∷ []) (2 ∷ []))
    ⊎ ((only_first (2 ∷ []) ≡ true)
        × (bytes_eq (3 ∷ []) (2 ∷ []) ≡ false)
        × (Dict.get (route same_budget only_first full (3 ∷ [])).sessions (2 ∷ []) ≡ none))
get-route_example = get-route same_budget only_first full (3 ∷ []) (2 ∷ [])

length-route_example : length (route same_budget only_first full (3 ∷ [])).sessions ≤ 2
length-route_example =
    length-route same_budget only_first full (3 ∷ []) (1 ∷ []) evicts (omega arith)
