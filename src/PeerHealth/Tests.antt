-- ===== src/PeerHealth/Tests.antt =====
-- A run of the peer manager, and its theorems at inputs where they apply.
use claw_crony.Base.{
  ℕ, ◌≡◌, refl, String, true, false, none, some, List, [], ◌∷◌, any, arith, if◌then◌else◌, str_eq,
  eq_iff,
}
use claw_crony.Base.Dict.{lookup, insert}
use claw_crony.PeerHealth.{
  opened, half_open, unhealthy, PeerState, BreakerConfig, Manager, fresh_state, init, init_states,
  is_available, cooldown_over, Call, asks, fails, step, run, available_in, record_failure, fail_in,
}
use claw_crony.PeerHealth.Consistent.{IsConsistent, run-init-IsConsistent}
use claw_crony.PeerHealth.Seen
use claw_crony.PeerHealth.Seen.{counting, lets, asked, told, after}
use claw_crony.PeerHealth.Machine.{is_available-run}
use claw_crony.PeerHealth.Cooldown.{half_open-exclusive}

abbrev config : BreakerConfig
config = record { failure_threshold = 2; reset_timeout_ms = 100 }

abbrev peers : List String
peers = "a" ∷ "b" ∷ []

abbrev start : Manager
start = init peers config

-- Two failures open the circuit of `a`; after the cooldown one caller is let through.
abbrev tripped : PeerState
tripped = record {
  health = unhealthy;
  circuit = opened;
  consecutive_failures = 2;
  last_failure_at = some 20;
  last_check_at = none;
}

abbrev tripping : List (ℕ × Call)
tripping = (10, fails "a") ∷ (20, fails "a") ∷ []

abbrev probing : List (ℕ × Call)
probing = (10, fails "a") ∷ (20, fails "a") ∷ (50, asks "a") ∷ (130, asks "a") ∷ []

tripped_state : lookup "a" (run tripping start).states ≡ some tripped
unfolding lookup insert init init_states run step record_failure fail_in
tripped_state = refl

probing_state :
    lookup "a" (run probing start).states ≡ some (record tripped { circuit = half_open })
unfolding lookup insert init init_states run step record_failure fail_in is_available available_in
    cooldown_over
probing_state = refl

start_state : lookup "a" start.states ≡ some fresh_state
unfolding lookup insert init init_states
start_state = refl

config-start : start.config ≡ config
unfolding init
config-start = refl

run-init-IsConsistent_example : IsConsistent (run probing (init peers config))
run-init-IsConsistent_example = run-init-IsConsistent peers config probing (omega arith)

is_available-run_example : (is_available "a" 140 (run probing (init peers config))).1 ≡ (
    if any (λ p. str_eq p "a") peers
    then lets config.reset_timeout_ms 140 (after config "a" probing (counting 0))
    else true)
is_available-run_example = is_available-run peers config probing "a" 140 (omega arith)

refused_again : lets 100 140 (after config "a" probing (counting 0)) ≡ false
unfolding lets after told asked Seen.failed
refused_again = refl

half_open-exclusive_example :
    is_available "a" 500 (run ((140, asks "a") ∷ (150, fails "b") ∷ []) (run probing start))
    ≡ (run ((140, asks "a") ∷ (150, fails "b") ∷ []) (run probing start), false)
unfolding init run step record_failure fail_in is_available lookup init_states insert available_in
    cooldown_over
half_open-exclusive_example =
    half_open-exclusive "a" ((140, asks "a") ∷ (150, fails "b") ∷ []) 500 (run probing start)
      (record tripped { circuit = half_open })
      (run-init-IsConsistent peers config probing (omega arith)) (omega arith) probing_state refl
      (tt, (ground (arith, eq_iff "b" "a"), tt))
