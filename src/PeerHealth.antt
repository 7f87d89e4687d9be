-- ===== src/PeerHealth.antt =====
-- src/peer-health.ts: health and circuit breaker of each peer. `Date.now()` is the argument `now`.
-- The probe is not part of the file: `check_peer` takes its answer. Log lines are left out.
pub mod Breaker
pub mod Consistent
pub mod Cooldown
pub mod Seen
pub mod Machine
pub mod Samples
pub mod Tests
use claw_crony.Base.{
  ℕ, suc, ◌+◌, ◌-◌, String, Bool, true, false, ◌&&◌, not, Option, none, some, List, [], ◌∷◌, leb,
  ◌==◌, if◌then◌else◌, str_eq, filter, any,
}
use claw_crony.Base.Dict.{Dict, lookup, insert}

-- `CircuitState`
pub data Circuit : Type 0 where
  closed opened half_open : Circuit

-- `HealthStatus`
pub data Health : Type 0 where
  unknown healthy unhealthy : Health

pub record PeerState : Type 0 where
  pub health : Health
  pub circuit : Circuit
  pub consecutive_failures : ℕ
  pub last_failure_at : Option ℕ
  pub last_check_at : Option ℕ

pub record BreakerConfig : Type 0 where
  pub failure_threshold : ℕ
  pub reset_timeout_ms : ℕ

-- `halfOpenInFlight` is a set of names.
pub record Manager : Type 0 where
  pub peers : List String
  pub config : BreakerConfig
  pub states : Dict PeerState
  pub in_flight : List String
  pub skills : Dict (List String)

abbrev pub fresh_state : PeerState
fresh_state = record {
  health = unknown;
  circuit = closed;
  consecutive_failures = 0;
  last_failure_at = none;
  last_check_at = none;
}

-- The loop of the constructor.
pub init_states : List String → Dict PeerState → Dict PeerState
init_states [] states = states
init_states (peer ∷ peers) states = init_states peers (insert peer fresh_state states)

pub init : List String → BreakerConfig → Manager
init peers config = record {
  peers = peers;
  config = config;
  states = init_states peers [];
  in_flight = [];
  skills = [];
}

-- `set.has`, `set.add` and `set.delete`
abbrev pub has : String → List String → Bool
has name = any (λ x. str_eq x name)

abbrev pub add : String → List String → List String
add name names = if has name names then names else name ∷ names

abbrev pub delete : String → List String → List String
delete name = filter (λ x. not (str_eq x name))

-- `state.lastFailureAt && Date.now() - state.lastFailureAt >= resetTimeoutMs`: a time of 0 counts as
-- none, and a clock that went back gives a negative difference.
pub cooldown_over : BreakerConfig → Option ℕ → ℕ → Bool
cooldown_over config none now = false
cooldown_over config (some at) now = not (at == 0) && leb (at + config.reset_timeout_ms) now

-- `isAvailable`, for a peer that is known.
pub available_in : String → ℕ → PeerState → Circuit → Manager → Manager × Bool
available_in name now state closed m = (m, true)
available_in name now state opened m =
    if cooldown_over m.config state.last_failure_at now
    then (
      record m {
        states = insert name (record state { circuit = half_open }) m.states;
        in_flight = add name m.in_flight;
      },
      true,
    )
    else (m, false)
available_in name now state half_open m =
    if has name m.in_flight
    then (m, false)
    else (record m { in_flight = add name m.in_flight }, true)

pub is_available : String → ℕ → Manager → Manager × Bool
is_available name now m = elim (lookup name m.states) [
  | none ↦ (m, true)
  | some state ↦ available_in name now state state.circuit m
]

pub record_success : String → Manager → Manager
record_success name m = elim (lookup name m.states) [
  | none ↦ m
  | some state ↦ record m {
    states =
        insert name (record state { consecutive_failures = 0; health = healthy; circuit = closed })
          m.states;
    in_flight = delete name m.in_flight;
  }
]

-- The state after one more failure, by the circuit before it.
pub fail_in : BreakerConfig → Circuit → PeerState → PeerState
fail_in config half_open state = record state { circuit = opened }
fail_in config closed state =
    if leb config.failure_threshold state.consecutive_failures
    then record state { circuit = opened; health = unhealthy }
    else state
fail_in config opened state = state

abbrev pub counted_failure : ℕ → PeerState → PeerState
counted_failure now state = record state {
  consecutive_failures = state.consecutive_failures + 1;
  last_failure_at = some now;
}

pub record_failure : String → ℕ → Manager → Manager
record_failure name now m = elim (lookup name m.states) [
  | none ↦ m
  | some state ↦ record m {
    states = insert name (fail_in m.config state.circuit (counted_failure now state)) m.states;
    in_flight = delete name m.in_flight;
  }
]

pub set_peer_skills : String → List String → Manager → Manager
set_peer_skills name skills m = record m { skills = insert name skills m.skills }

-- `checkPeer` after the probe has answered.
pub check_peer : String → Bool → ℕ → Manager → Manager
check_peer name is_healthy now m = elim (lookup name m.states) [
  | none ↦ m
  | some state ↦
      let checked = record state { last_check_at = some now } in
      if is_healthy
      then record_success name (record m { states = insert name checked m.states })
      else record_failure name now
          (record m { states = insert name (record checked { health = unhealthy }) m.states })
]

pub data Call : Type 0 where
  asks succeeds fails : String → Call
  checks : String → Bool → Call
  learns : String → List String → Call

pub step : ℕ → Call → Manager → Manager
step now (asks name) m = (is_available name now m).0
step now (succeeds name) m = record_success name m
step now (fails name) m = record_failure name now m
step now (checks name is_healthy) m = check_peer name is_healthy now m
step now (learns name skills) m = set_peer_skills name skills m

pub run : List (ℕ × Call) → Manager → Manager
run [] m = m
run ((now, c) ∷ cs) m = run cs (step now c m)
