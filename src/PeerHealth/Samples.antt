-- ===== src/PeerHealth/Samples.antt =====
-- A manager of src/peer-health.ts whose circuit for one peer has just opened, for runs of its clients.
use claw_crony.Base.{◌<◌, ◌≡◌, refl, true, none, some, [], ◌∷◌, arith}
use claw_crony.Base.Dict.{lookup, insert}
use claw_crony.PeerHealth.{
  PeerState, BreakerConfig, Manager, init_states, init, cooldown_over, available_in, is_available,
  fail_in, record_failure, step, run, opened, unhealthy, fails,
}
use claw_crony.PeerHealth.Consistent.{IsConsistent, run-init-IsConsistent}

abbrev pub breaker : BreakerConfig
breaker = record { failure_threshold = 2; reset_timeout_ms = 100 }

abbrev pub fresh : Manager
fresh = init ("a" ∷ "b" ∷ []) breaker

-- Two failures open the circuit of `a`.
abbrev pub tripped : Manager
tripped = run ((10, fails "a") ∷ (20, fails "a") ∷ []) fresh

abbrev pub state_of_a : PeerState
state_of_a = record {
  health = unhealthy;
  circuit = opened;
  consecutive_failures = 2;
  last_failure_at = some 20;
  last_check_at = none;
}

pub fresh_open : (is_available "a" 0 fresh).1 ≡ true
unfolding lookup insert init init_states is_available available_in
fresh_open = refl

pub tripped_state : lookup "a" tripped.states ≡ some state_of_a
unfolding lookup insert init init_states run step record_failure fail_in
tripped_state = refl

pub tripped-IsConsistent : IsConsistent tripped
tripped-IsConsistent =
    run-init-IsConsistent ("a" ∷ "b" ∷ []) breaker ((10, fails "a") ∷ (20, fails "a") ∷ [])
      (omega arith)

pub tripped_threshold : 0 < tripped.config.failure_threshold
unfolding init run step record_failure lookup insert init_states fail_in
tripped_threshold = omega arith

pub tripped_over : cooldown_over tripped.config (some 20) 130 ≡ true
unfolding init run step record_failure cooldown_over lookup insert init_states fail_in
tripped_over = refl
