-- ===== src/PeerHealth/Breaker.antt =====
-- What opens, half-opens and closes a circuit, and whom a call concerns.
use claw_crony.Base.{
  ℕ, ◌≡◌, ◌↔◌, ◌⊎◌, refl, sym, ◌∙◌, ap, inl, inr, String, Bool, true, false, Option, none, some,
  List, [], ◌∷◌, arith, if◌then◌else◌, str_eq, eq_iff, Bool-cases, Option-cases,
}
use claw_crony.Base.Dict.{Dict, lookup, insert, lookup-insert}
use mathlib.Core.Option
use claw_crony.PeerHealth.{
  healthy, unhealthy, Circuit, closed, opened, half_open, PeerState, BreakerConfig, Manager, has,
  cooldown_over, available_in, is_available, record_success, record_failure, fail_in,
  counted_failure, set_peer_skills, check_peer, Call, asks, succeeds, fails, checks, learns, step,
}
use claw_crony.PeerHealth.Consistent.{IsConsistent, half_open-refuses}

-- A known peer is available exactly when its circuit is closed, or open with the cooldown over; so a
-- half-open circuit refuses every caller until a result is recorded.
pub is_available_iff :
    (k : String) (now : ℕ) (m : Manager) (state : PeerState)
    → IsConsistent m
    → lookup k m.states ≡ some state
    → ((is_available k now m).1 ≡ true) ↔ (
        (state.circuit ≡ closed)
        ⊎ ((state.circuit ≡ opened) × (cooldown_over m.config state.last_failure_at now ≡ true)))
unfolding is_available available_in
is_available_iff k now m state v found = ground (arith, half_open-refuses k now m state v found)

-- The peers that a call names.
abbrev pub subject : Call → String
subject (asks k) = k
subject (succeeds k) = k
subject (fails k) = k
subject (checks k b) = k
subject (learns k skills) = k

-- The breaker of one peer by itself: what a call about it does to its state.
abbrev pub on_ask : BreakerConfig → ℕ → PeerState → Circuit → PeerState
on_ask config now state opened =
    if cooldown_over config state.last_failure_at now
    then record state { circuit = half_open }
    else state
on_ask config now state _ = state

abbrev pub on_success : PeerState → PeerState
on_success state = record state { consecutive_failures = 0; health = healthy; circuit = closed }

abbrev pub on_failure : BreakerConfig → ℕ → PeerState → PeerState
on_failure config now state = fail_in config state.circuit (counted_failure now state)

abbrev pub peer_after : BreakerConfig → ℕ → Call → PeerState → PeerState
peer_after config now (asks k) state = on_ask config now state state.circuit
peer_after config now (succeeds k) state = on_success state
peer_after config now (fails k) state = on_failure config now state
peer_after config now (checks k true) state = on_success (record state { last_check_at = some now })
peer_after config now (checks k false) state =
    on_failure config now (record state { last_check_at = some now; health = unhealthy })
peer_after config now (learns k skills) state = state

abbrev pub if_about : String → BreakerConfig → ℕ → Call → PeerState → PeerState
if_about j config now c state =
    if str_eq (subject c) j then peer_after config now c state else state

unfoldable pub peer_run : String → BreakerConfig → List (ℕ × Call) → PeerState → PeerState
peer_run j config [] state = state
peer_run j config ((now, c) ∷ cs) state = peer_run j config cs (if_about j config now c state)

map_same : (o : Option PeerState) → o ≡ Option.map (λ s. s) o
map_same none = refl
map_same (some s) = refl

-- What a state and a call on it make of a look-up, where the write goes to the peer's own entry.
insert-lookup :
    (k j : String) (f : PeerState → PeerState) (state : PeerState) (d : Dict PeerState)
    → lookup k d ≡ some state
    → lookup j (insert k (f state) d) ≡ Option.map (λ s. if str_eq k j then f s else s) (lookup j d)
insert-lookup k j f state d found = elim (Bool-cases (str_eq k j)) [
  | inl same ↦ rw (lookup-insert k j (f state) d, same, ← (eq_iff k j).0 same, found) refl
  | inr other ↦ rw (lookup-insert k j (f state) d, other) (map_same (lookup j d))
]

none-lookup :
    (k j : String) (f : PeerState → PeerState) (d : Dict PeerState)
    → lookup k d ≡ none
    → lookup j d ≡ Option.map (λ s. if str_eq k j then f s else s) (lookup j d)
none-lookup k j f d missing = elim (Bool-cases (str_eq k j)) [
  | inl same ↦ rw (same, ← (eq_iff k j).0 same, missing) refl
  | inr other ↦ rw other (map_same (lookup j d))
]

insert_found :
    (k j : String) (state : PeerState) (d : Dict PeerState)
    → lookup k d ≡ some state
    → lookup j (insert k state d) ≡ lookup j d
insert_found k j state d found = elim (Bool-cases (str_eq k j)) [
  | inl same ↦ rw (lookup-insert k j state d, same, ← (eq_iff k j).0 same, found) refl
  | inr other ↦ rw (lookup-insert k j state d, other) refl
]

-- Two writes about one peer.
map_twice :
    (b : Bool) (f g : PeerState → PeerState) (o : Option PeerState)
    → Option.map (λ s. if b then f s else s) (Option.map (λ s. if b then g s else s) o)
      ≡ Option.map (λ s. if b then f (g s) else s) o
map_twice true f g none = refl
map_twice true f g (some s) = refl
map_twice false f g none = refl
map_twice false f g (some s) = refl

states-available_in :
    (k j : String) (now : ℕ) (m : Manager) (state : PeerState) (c : Circuit)
    → lookup k m.states ≡ some state
    → lookup j (available_in k now state c m).0.states
      ≡ lookup j (insert k (on_ask m.config now state c) m.states)
unfolding available_in
states-available_in k j now m state closed found = sym (insert_found k j state m.states found)
states-available_in k j now m state opened found =
    elim (Bool-cases (cooldown_over m.config state.last_failure_at now)) [
      | inl over ↦ rw over
      | inr early ↦ rw early (sym (insert_found k j state m.states found))
    ]
states-available_in k j now m state half_open found = elim (Bool-cases (has k m.in_flight)) [
  | inl taken ↦ rw taken (sym (insert_found k j state m.states found))
  | inr free ↦ rw free (sym (insert_found k j state m.states found))
]

module _ (k j : String) (now : ℕ) (m : Manager) where
  lookup-is_available :
      lookup j (is_available k now m).0.states
      ≡ Option.map
          (λ s. if str_eq k j then on_ask m.config now s s.circuit else s)
          (lookup j m.states)
  unfolding is_available
  lookup-is_available = elim (Option-cases (lookup k m.states)) [
    | inl missing ↦
        rw (missing, is_available)
          (none-lookup k j (λ s. on_ask m.config now s s.circuit) m.states missing)
    | inr (state, found) ↦
        rw (found, is_available)
          (states-available_in k j now m state state.circuit found
            ∙ insert-lookup k j (λ s. on_ask m.config now s s.circuit) state m.states found)
  ]

  lookup-record_success :
      lookup j (record_success k m).states
      ≡ Option.map (λ s. if str_eq k j then on_success s else s) (lookup j m.states)
  unfolding record_success
  lookup-record_success = elim (Option-cases (lookup k m.states)) [
    | inl missing ↦ rw (missing, record_success) (none-lookup k j on_success m.states missing)
    | inr (state, found) ↦
        rw (found, record_success) (insert-lookup k j on_success state m.states found)
  ]

  lookup-record_failure :
      lookup j (record_failure k now m).states
      ≡ Option.map (λ s. if str_eq k j then on_failure m.config now s else s) (lookup j m.states)
  unfolding record_failure
  lookup-record_failure = elim (Option-cases (lookup k m.states)) [
    | inl missing ↦
        rw (missing, record_failure) (none-lookup k j (on_failure m.config now) m.states missing)
    | inr (state, found) ↦
        rw (found, record_failure)
          (insert-lookup k j (on_failure m.config now) state m.states found)
  ]

lookup-check_peer :
    (k j : String) (b : Bool) (now : ℕ) (m : Manager)
    → lookup j (check_peer k b now m).states
      ≡ Option.map (if_about j m.config now (checks k b)) (lookup j m.states)
unfolding check_peer
lookup-check_peer k j b now m = elim (Option-cases (lookup k m.states)) [
  | inl missing ↦
      rw (missing, check_peer)
        (none-lookup k j (peer_after m.config now (checks k b)) m.states missing)
  | inr (state, found) ↦ rw (found, check_peer) (go b state found)
]
  where
    noted : Bool → PeerState → PeerState
    noted true s = record s { last_check_at = some now }
    noted false s = record s { last_check_at = some now; health = unhealthy }

    go :
        (b : Bool) (state : PeerState)
        → lookup k m.states ≡ some state
        → lookup j
            (if b
              then record_success k (record m { states = insert k (noted true state) m.states })
              else record_failure k now
                  (record m { states = insert k (noted false state) m.states })).states
          ≡ Option.map (if_about j m.config now (checks k b)) (lookup j m.states)
    go true state found =
        lookup-record_success k j now (record m { states = insert k (noted true state) m.states })
        ∙ ap (Option.map _) (insert-lookup k j (noted true) state m.states found)
        ∙ map_twice (str_eq k j) on_success (noted true) (lookup j m.states)
    go false state found =
        lookup-record_failure k j now (record m { states = insert k (noted false state) m.states })
        ∙ ap (Option.map _) (insert-lookup k j (noted false) state m.states found)
        ∙ map_twice (str_eq k j) (on_failure m.config now) (noted false) (lookup j m.states)

-- The manager is the product of its peers' breakers: each call moves the state of the peer that it
-- names by `peer_after`, and leaves every other state as it was.
pub lookup-step :
    (now : ℕ) (c : Call) (j : String) (m : Manager)
    → lookup j (step now c m).states
      ≡ Option.map
          (λ s. if str_eq (subject c) j then peer_after m.config now c s else s)
          (lookup j m.states)
unfolding step set_peer_skills
lookup-step now (asks k) j m = lookup-is_available k j now m
lookup-step now (succeeds k) j m = lookup-record_success k j now m
lookup-step now (fails k) j m = lookup-record_failure k j now m
lookup-step now (checks k b) j m = lookup-check_peer k j b now m
lookup-step now (learns k skills) j m = none_changed (str_eq k j) (lookup j m.states)
  where
    none_changed : (b : Bool) (o : Option PeerState) → o ≡ Option.map (λ s. if b then s else s) o
    none_changed b none = refl
    none_changed true (some s) = refl
    none_changed false (some s) = refl
