-- ===== src/Sessions/Routing.antt =====
-- src/sessions.rs: what `route` keeps and what it may drop.
use subnext.Prelude.{
  ◌≡◌, subst, leb, ℕ, suc, ◌≤◌, Bool, true, false, not, ◌&&◌, ◌⊎◌, Option, none, some, List, [],
  ◌∷◌, length, if◌then◌else◌, arith, Option-cases, Bool-cases, inl, inr,
}
use subnext.Prelude.Bytes.{bytes_eq, bytes_eq_iff, bytes_eq_refl}
use subnext.Prelude.Dict
use subnext.Prelude.Dict.{Dict}
use subnext.Sessions.{SessionRouter, discard, contains, victim, make_room, admit, route}

get-discard {ℓ} :
    {V : Type ℓ} (d : Dict V) (k j : List ℕ)
    → Dict.get (discard d k) j ≡ (if bytes_eq k j then none else Dict.get d j)
unfolding Dict.get discard
get-discard [] k j = ground arith
get-discard ((i, v) ∷ d) k j = ground (
  arith,
  get-discard d k j,
  bytes_eq_iff i k,
  bytes_eq_iff k j,
  bytes_eq_iff i j,
  bytes_eq_refl i,
  bytes_eq_refl k,
  bytes_eq_refl j,
)

module _ {Runtime : Type 0} (fresh : ℕ → Runtime) (idle : List ℕ → Bool) where
  victim-idle :
      (sessions : Dict Runtime) (session oldest : List ℕ) (lru : List (List ℕ))
      → victim fresh idle sessions session lru ≡ some oldest
      → idle oldest ≡ true
  unfolding victim
  victim-idle sessions session oldest [] h = cc
  victim-idle sessions session oldest (id ∷ lru) h =
      ground (arith, victim-idle sessions session oldest lru)

  victim-held :
      (sessions : Dict Runtime) (session oldest : List ℕ) (lru : List (List ℕ))
      → victim fresh idle sessions session lru ≡ some oldest
      → contains sessions oldest ≡ true
  unfolding victim
  victim-held sessions session oldest [] h = cc
  victim-held sessions session oldest (id ∷ lru) h =
      ground (arith, victim-held sessions session oldest lru)

  budget-make_room :
      (r : SessionRouter Runtime) (session : List ℕ)
      → (make_room fresh idle r session).budget ≡ r.budget
  unfolding make_room
  budget-make_room r session = ground arith

  -- A session as routing has it: one that it does not route keeps what it had, and the routed one keeps
  -- its runtime, or has a fresh one of the router's budget where it had none.
  abbrev pub after_route : SessionRouter Runtime → List ℕ → List ℕ → Option Runtime
  after_route r session id =
      if bytes_eq session id && not (contains r.sessions session)
      then some (fresh r.budget)
      else Dict.get r.sessions id

  get-make_room-cases :
      (r : SessionRouter Runtime) (session id : List ℕ)
      → (Dict.get (make_room fresh idle r session).sessions id ≡ Dict.get r.sessions id)
        ⊎ ((idle id ≡ true) × (Dict.get (make_room fresh idle r session).sessions id ≡ none))
  unfolding make_room
  get-make_room-cases r session id =
      elim (Option-cases (victim fresh idle r.sessions session r.lru)) [
        | inl e ↦ inl (ground arith)
        | inr (oldest, e) ↦ elim (Bool-cases (bytes_eq oldest id)) [
          | inr other ↦ inl (ground (arith, get-discard r.sessions oldest id))
          | inl same ↦ elim (Bool-cases (leb r.capacity (length r.sessions))) [
            | inr room ↦ inl (ground arith)
            | inl full ↦ inr (
              subst (λ t. idle t ≡ true) (bytes_eq_iff oldest id same)
                  (victim-idle r.sessions session oldest r.lru e),
              ground (arith, get-discard r.sessions oldest id),
            )
          ]
        ]
      ]

  -- Whatever session is routed, in any router, each session is as routing has it: it keeps its runtime,
  -- or gets a fresh one of the router's budget if it is the routed one and had none. The exception is
  -- a session other than the routed one that is idle: it may be gone.
  pub get-route :
      (r : SessionRouter Runtime) (session id : List ℕ)
      → (Dict.get (route fresh idle r session).sessions id ≡ after_route r session id)
        ⊎ ((idle id ≡ true)
            × (bytes_eq session id ≡ false)
            × (Dict.get (route fresh idle r session).sessions id ≡ none))
  unfolding route admit contains
  get-route r session id =
      let roomy = make_room fresh idle r session in
      let put = Dict.get-insert roomy.sessions session id (fresh roomy.budget) in
      elim (Bool-cases (contains r.sessions session)) [
        | inl held ↦ inl (ground arith)
        | inr new ↦ elim (Bool-cases (bytes_eq session id)) [
          | inl same ↦ inl (ground (arith, put, budget-make_room r session))
          | inr other ↦ elim (get-make_room-cases r session id) [
            | inl kept ↦ inl (ground (arith, put))
            | inr (busy, gone) ↦ inr (busy, other, ground (arith, put))
          ]
        ]
      ]

  length-insert :
      (d : Dict Runtime) (k : List ℕ) (v : Runtime) → length (Dict.insert d k v) ≤ suc (length d)
  unfolding Dict.insert
  length-insert [] k v = omega arith
  length-insert ((j, w) ∷ d) k v = ground (arith, length-insert d k v)

  length-discard_le : (d : Dict Runtime) (k : List ℕ) → length (discard d k) ≤ length d
  unfolding discard
  length-discard_le [] k = omega arith
  length-discard_le ((j, w) ∷ d) k = ground (arith, length-discard_le d k)

  length-discard :
      (d : Dict Runtime) (k : List ℕ) → contains d k ≡ true → suc (length (discard d k)) ≤ length d
  unfolding discard contains Dict.get
  length-discard [] k h = cc
  length-discard ((j, w) ∷ d) k h = ground (arith, length-discard d k, length-discard_le d k)

  -- Where some session may be evicted, routing stays within the capacity.
  pub length-route :
      (r : SessionRouter Runtime) (session oldest : List ℕ)
      → victim fresh idle r.sessions session r.lru ≡ some oldest
      → length r.sessions ≤ r.capacity
      → length (route fresh idle r session).sessions ≤ r.capacity
  unfolding route admit make_room
  length-route r session oldest found within =
      let roomy = make_room fresh idle r session in
      ground (
        arith,
        length-insert roomy.sessions session (fresh roomy.budget),
        length-discard r.sessions oldest,
        victim-held r.sessions session oldest r.lru found,
      )
