-- ===== src/PeerHealth/Machine.antt =====
-- src/peer-health.ts: what a caller sees of the manager, against a breaker for one peer that is written
-- by itself.
use claw_crony.Base.{
  ℕ, ◌<◌, ◌≡◌, refl, sym, ◌∙◌, ap, inl, inr, String, Bool, true, false, none, some, any, List, [],
  ◌∷◌, if◌then◌else◌, str_eq, Bool-cases,
}
use claw_crony.Base.Dict.{Dict, lookup, insert, lookup-insert, lookup-nil}
use mathlib.Core.Option
use claw_crony.PeerHealth.{
  Circuit, closed, opened, half_open, PeerState, BreakerConfig, Manager, fresh_state, init_states,
  init, cooldown_over, is_available, available_in, Call, run,
}
use claw_crony.PeerHealth.Consistent.{IsConsistent, half_open-refuses, run-init-IsConsistent}
use claw_crony.PeerHealth.Breaker.{peer_run}
use claw_crony.PeerHealth.Cooldown.{lookup-run, config-run}
use claw_crony.PeerHealth.Seen.{counting, lets, after, breaker_of, seen, over-lets, seen-peer_run}

by_circuit :
    (j : String) (now : ℕ) (m : Manager) (s : PeerState)
    → IsConsistent m
    → lookup j m.states ≡ some s
    → (c : Circuit) → s.circuit ≡ c
    → (is_available j now m).1 ≡ lets m.config.reset_timeout_ms now (breaker_of c s)
unfolding is_available available_in breaker_of lets
by_circuit j now m s v found closed e = rw (is_available, found, available_in, e) refl
by_circuit j now m s v found opened e =
    elim (Bool-cases (cooldown_over m.config s.last_failure_at now)) [
      | inl o ↦
          rw (is_available, found, e, available_in, o)
            (sym (sym (over-lets m.config s.last_failure_at now) ∙ o))
      | inr o ↦
          rw (is_available, found, e, available_in, o)
            (sym (sym (over-lets m.config s.last_failure_at now) ∙ o))
    ]
by_circuit j now m s v found half_open e = ap (λ r. r.1) (half_open-refuses j now m s v found e)

lets-is_available :
    (j : String) (now : ℕ) (m : Manager) (s : PeerState)
    → IsConsistent m
    → lookup j m.states ≡ some s
    → (is_available j now m).1 ≡ lets m.config.reset_timeout_ms now (seen s)
unfolding seen
lets-is_available j now m s v found = by_circuit j now m s v found s.circuit refl

lookup-init_states :
    (j : String) (peers : List String) (states : Dict PeerState)
    → lookup j (init_states peers states)
      ≡ (if any (λ p. str_eq p j) peers then some fresh_state else lookup j states)
unfolding init_states
lookup-init_states j [] states = refl
lookup-init_states j (p ∷ peers) states = elim (Bool-cases (str_eq p j)) [
  | inl same ↦
      rw
        (
          lookup-init_states j peers (insert p fresh_state states),
          lookup-insert p j fresh_state states,
          same,
        )
        (twice (any (λ q. str_eq q j) peers))
  | inr other ↦
      rw
        (
          lookup-init_states j peers (insert p fresh_state states),
          lookup-insert p j fresh_state states,
          other,
        )
        refl
]
  where
    twice : (b : Bool) → (if b then some fresh_state else some fresh_state) ≡ some fresh_state
    twice true = refl
    twice false = refl

known-start :
    (peers : List String) (config : BreakerConfig) (j : String)
    → lookup j (init peers config).states
      ≡ (if any (λ p. str_eq p j) peers then some fresh_state else none)
unfolding init
known-start peers config j = lookup-init_states j peers [] ∙ rw (lookup-nil j) refl

config-init : (peers : List String) (config : BreakerConfig) → (init peers config).config ≡ config
unfolding init
config-init peers config = refl

seen-fresh : seen fresh_state ≡ counting 0
unfolding seen breaker_of
seen-fresh = refl

is_available-unknown :
    (j : String) (now : ℕ) (m : Manager)
    → lookup j m.states ≡ none
    → (is_available j now m).1 ≡ true
unfolding is_available
is_available-unknown j now m h = rw (is_available, h) refl

module _ (peers : List String) (config : BreakerConfig) (cs : List (ℕ × Call)) (j : String) where
  lookup-history :
      lookup j (run cs (init peers config)).states
      ≡ Option.map
          (peer_run j config cs)
          (if any (λ p. str_eq p j) peers then some fresh_state else none)
  lookup-history =
      lookup-run cs j (init peers config)
      ∙ rw (known-start peers config j, config-init peers config) refl

  config-history : (run cs (init peers config)).config ≡ config
  config-history = config-run cs (init peers config) ∙ config-init peers config

-- With a positive threshold, after any history a configured peer is available exactly when the breaker that has seen the
-- calls about that peer, and no others, lets a caller through; a peer that is not configured is always available. The breaker opens at the
-- threshold, lets one caller through when the time to reset is over, and is closed by a success and opened again by
-- a failure behind that caller.
pub is_available-run :
    (peers : List String) (config : BreakerConfig) (cs : List (ℕ × Call)) (j : String) (now : ℕ)
    → 0 < config.failure_threshold
    → (is_available j now (run cs (init peers config))).1 ≡ (
        if any (λ p. str_eq p j) peers
        then lets config.reset_timeout_ms now (after config j cs (counting 0))
        else true)
is_available-run peers config cs j now positive = elim (Bool-cases (any (λ p. str_eq p j) peers)) [
  | inl known ↦ rw known (
      let found : lookup j (run cs (init peers config)).states
          ≡ some (peer_run j config cs fresh_state) =
        rw known at (lookup-history peers config cs j) in
      lets-is_available j now (run cs (init peers config)) (peer_run j config cs fresh_state)
        (run-init-IsConsistent peers config cs positive) found
      ∙ rw (config-history peers config cs j, seen-peer_run config j cs fresh_state, seen-fresh)
          refl)
  | inr unknown ↦ rw unknown (
      is_available-unknown j now (run cs (init peers config))
        (rw unknown at (lookup-history peers config cs j)))
]
