-- ===== src/Sessions.antt =====
-- src/sessions.rs: `SessionRouter`, which keeps a runtime for each conversation and evicts the least
-- recently used one that is not in flight. The runtime of src/runtime.rs is a parameter: the type
-- `Runtime`, with `fresh` for `Dcr::new`. Whether a session is idle, that is, whether the router
-- holds the only handle to it, is what the threads make it at the time of the call: `idle`.
pub mod Routing
mod Examples
use subnext.Prelude.{
  ℕ, ◌+◌, max, Bool, true, false, not, ◌&&◌, Option, none, some, List, [], ◌∷◌, ◌++◌, length, leb,
  if◌then◌else◌,
}
use subnext.Prelude.Bytes.{bytes_eq}
use subnext.Prelude.Dict
use subnext.Prelude.Dict.{Dict}

pub record SessionRouter (Runtime : Type 0) : Type 0 where
  pub budget : ℕ
  pub capacity : ℕ
  pub sessions : Dict Runtime
  pub lru : List (List ℕ)
  pub evicted : ℕ

-- `HashMap::remove`
unfoldable discard {ℓ} : {V : Type ℓ} → Dict V → List ℕ → Dict V
discard [] k = []
discard ((j, v) ∷ d) k = let rest = discard d k in if bytes_eq j k then rest else (j, v) ∷ rest

-- `lru.retain(|id| id != session)`
unfoldable retain_others : List ℕ → List (List ℕ) → List (List ℕ)
retain_others id [] = []
retain_others id (j ∷ ids) =
    let rest = retain_others id ids in if bytes_eq j id then rest else j ∷ rest

-- `lru.remove(pos)`, at the first entry of the id
unfoldable remove_first : List ℕ → List (List ℕ) → List (List ℕ)
remove_first id [] = []
remove_first id (j ∷ ids) = if bytes_eq j id then ids else j ∷ remove_first id ids

unfoldable pub contains {ℓ} : {V : Type ℓ} → Dict V → List ℕ → Bool
contains d k = elim (Dict.get d k) [ none ↦ false | some _ ↦ true ]

module _ {Runtime : Type 0} (fresh : ℕ → Runtime) (idle : List ℕ → Bool) where
  abbrev pub new : ℕ → ℕ → SessionRouter Runtime
  new budget capacity = record {
    budget = budget;
    capacity = max capacity 1;
    sessions = [];
    lru = [];
    evicted = 0;
  }

  -- The first entry of the queue that may be evicted.
  unfoldable pub victim : Dict Runtime → List ℕ → List (List ℕ) → Option (List ℕ)
  unfolding contains
  victim sessions session [] = none
  victim sessions session (id ∷ ids) =
      if not (bytes_eq id session) && (contains sessions id && idle id)
      then some id
      else victim sessions session ids

  unfoldable make_room : SessionRouter Runtime → List ℕ → SessionRouter Runtime
  unfolding victim discard remove_first
  make_room r session =
      if leb r.capacity (length r.sessions)
      then (elim (victim r.sessions session r.lru) [
        | none ↦ r
        | some oldest ↦ record r {
          sessions = discard r.sessions oldest;
          lru = remove_first oldest r.lru;
          evicted = r.evicted + 1;
        }
      ])
      else r

  unfoldable admit : SessionRouter Runtime → List ℕ → SessionRouter Runtime
  unfolding make_room contains
  admit r session =
      if contains r.sessions session
      then r
      else let roomy = make_room r session in
        record roomy { sessions = Dict.insert roomy.sessions session (fresh roomy.budget) }

  -- The router after `route`; the handle that it returns is that of `session` in `sessions`.
  unfoldable pub route : SessionRouter Runtime → List ℕ → SessionRouter Runtime
  unfolding admit retain_others
  route r session =
      let ready = admit r session in
      record ready { lru = retain_others session ready.lru ++ (session ∷ []) }
