-- ===== src/PeerHealth/Cooldown.antt =====
-- Histories of one peer's circuit: what opens it, how long it stays open, and the single probe.
use mathlib.Core.Option
use claw_crony.Base.{
  ℕ, ◌+◌, ◌≤◌, ◌<◌, ◌≡◌, ◌≢◌, refl, sym, ◌∙◌, ap, inl, inr, String, true, false, Option, some, List,
  [], ◌∷◌, arith, ltb, length, map, All, if◌then◌else◌, str_eq, eq_iff, Bool-cases, subst,
}
use claw_crony.Base.Dict.{lookup, lookup-insert_self}
use claw_crony.PeerHealth.{
  closed, opened, half_open, PeerState, BreakerConfig, Manager, cooldown_over, available_in,
  is_available, fail_in, Call, asks, succeeds, fails, checks, learns, step, run,
}
use claw_crony.PeerHealth.Consistent.{
  IsConsistent, config-step, half_open-refuses, run-IsConsistent_from,
}
use claw_crony.PeerHealth.Breaker.{
  on_ask, on_failure, subject, peer_after, if_about, peer_run, lookup-step,
}

-- The states after a history, peer by peer.
pub lookup-run :
    (cs : List (ℕ × Call)) (j : String) (m : Manager)
    → lookup j (run cs m).states ≡ Option.map (peer_run j m.config cs) (lookup j m.states)
unfolding run peer_run
lookup-run [] j m =
    sym (ap (λ (f : Option PeerState → Option PeerState). f (lookup j m.states)) Option.map-id)
lookup-run ((now, c) ∷ cs) j m =
    lookup-run cs j (step now c m)
    ∙ rw (config-step now c m, lookup-step now c j m)
        (Option.map-map (peer_run j m.config cs) (if_about j m.config now c) (lookup j m.states))

pub config-run : (cs : List (ℕ × Call)) (m : Manager) → (run cs m).config ≡ m.config
unfolding run
config-run [] m = refl
config-run ((now, c) ∷ cs) m = config-run cs (step now c m) ∙ config-step now c m

lookup-run-some :
    (cs : List (ℕ × Call)) (j : String) (m : Manager) (state : PeerState)
    → lookup j m.states ≡ some state
    → lookup j (run cs m).states ≡ some (peer_run j m.config cs state)
lookup-run-some cs j m state found = rw (lookup-run cs j m, found) refl

abbrev pub failing : String → List ℕ → List (ℕ × Call)
failing k = map (λ t. (t, fails k))

peer_run-failing :
    (k : String) (config : BreakerConfig) (ts : List ℕ) (state : PeerState)
    → (state.circuit
        ≡ (if ltb state.consecutive_failures config.failure_threshold then closed else opened))
    → ((peer_run k config (failing k ts) state).consecutive_failures
        ≡ state.consecutive_failures + length ts)
      × ((peer_run k config (failing k ts) state).circuit ≡ (
          if ltb (state.consecutive_failures + length ts) config.failure_threshold
          then closed
          else opened))
unfolding peer_run fail_in
peer_run-failing k config [] state h = ground arith
peer_run-failing k config (t ∷ ts) state h =
    ground (arith, eq_iff k k, peer_run-failing k config ts (on_failure config t state))

-- The circuit of a known peer that is closed below the threshold opens exactly when the failures in
-- a row make up the threshold.
pub failures-open :
    (k : String) (ts : List ℕ) (m : Manager) (state : PeerState)
    → lookup k m.states ≡ some state
    → state.circuit ≡ closed
    → state.consecutive_failures < m.config.failure_threshold
    → (after : PeerState) × (lookup k (run (failing k ts) m).states ≡ some after)
      × (after.consecutive_failures ≡ state.consecutive_failures + length ts)
      × (after.circuit ≡ (
          if ltb (state.consecutive_failures + length ts) m.config.failure_threshold
          then closed
          else opened))
failures-open k ts m state found e h =
    let (counted, circuit) = peer_run-failing k m.config ts state (ground arith) in
    (
      peer_run k m.config (failing k ts) state,
      lookup-run-some (failing k ts) k m state found,
      counted,
      circuit,
    )

-- A call that reports no success of the peer.
abbrev pub NoSuccess : String → Call → Type 0
NoSuccess k (succeeds j) = j ≢ k
NoSuccess k (checks j true) = j ≢ k
NoSuccess k _ = Unit

abbrev pub IsWithin : ℕ → ℕ → String → ℕ × Call → Type 0
IsWithin low high k (now, c) = (low ≤ now) × (now < high) × NoSuccess k c

-- The circuit has failed no earlier than `low`.
record Waits (low : ℕ) (state : PeerState) : Type 0 where
  circuit : state.circuit ≡ opened
  at : ℕ
  failed : state.last_failure_at ≡ some at
  late : low ≤ at

cooldown-early :
    (low now : ℕ) (config : BreakerConfig) (state : PeerState)
    → Waits low state
    → now < low + config.reset_timeout_ms
    → cooldown_over config state.last_failure_at now ≡ false
unfolding cooldown_over
cooldown-early low now config state w h = rw w.failed (ground (arith, w.late))

on_ask-early :
    (low now : ℕ) (config : BreakerConfig) (state : PeerState)
    → Waits low state
    → now < low + config.reset_timeout_ms
    → on_ask config now state state.circuit ≡ state
on_ask-early low now config state w h =
    ground (arith, w.circuit, cooldown-early low now config state w h)

peer_after-Waits :
    (low now : ℕ) (config : BreakerConfig) (c : Call) (state : PeerState)
    → Waits low state
    → IsWithin low (low + config.reset_timeout_ms) (subject c) (now, c)
    → Waits low (peer_after config now c state)
unfolding fail_in cooldown_over
peer_after-Waits low now config (asks k) state w h =
    subst (Waits low) (sym (on_ask-early low now config state w h.1)) w
peer_after-Waits low now config (succeeds k) state w (_, _, h) = absurd (h refl)
peer_after-Waits low now config (fails k) state w h = record {
  circuit = ground (arith, w.circuit);
  at = now;
  failed = ground (arith, w.circuit);
  late = h.0;
}
peer_after-Waits low now config (checks k true) state w (_, _, h) = absurd (h refl)
peer_after-Waits low now config (checks k false) state w h = record {
  circuit = ground (arith, w.circuit);
  at = now;
  failed = ground (arith, w.circuit);
  late = h.0;
}
peer_after-Waits low now config (learns k skills) state w h = w

peer_run-Waits :
    (low : ℕ) (k : String) (config : BreakerConfig) (cs : List (ℕ × Call)) (state : PeerState)
    → Waits low state
    → All (IsWithin low (low + config.reset_timeout_ms) k) cs
    → Waits low (peer_run k config cs state)
unfolding peer_run
peer_run-Waits low k config [] state w h = w
peer_run-Waits low k config ((now, c) ∷ cs) state w (here, later) =
    peer_run-Waits low k config cs (if_about k config now c state)
      (elim (Bool-cases (str_eq (subject c) k)) [
        | inl same ↦ rw same (
            peer_after-Waits low now config c state w (
              subst (λ j. IsWithin low (low + config.reset_timeout_ms) j (now, c))
                (sym ((eq_iff (subject c) k).0 same)) here))
        | inr other ↦ rw other w
      ])
      later

-- An open circuit that last failed at time `t` refuses every caller until `t + resetTimeoutMs`,
-- whatever is asked or fails in between, if no success of the peer is recorded.
pub cooldown-refuses :
    (k : String) (cs : List (ℕ × Call)) (now t : ℕ) (m : Manager) (state : PeerState)
    → lookup k m.states ≡ some state
    → state.circuit ≡ opened
    → state.last_failure_at ≡ some t
    → All (IsWithin t (t + m.config.reset_timeout_ms) k) cs
    → now < t + m.config.reset_timeout_ms
    → (is_available k now (run cs m)).1 ≡ false
unfolding is_available available_in
cooldown-refuses k cs now t m state found e failed within h =
    let w =
      peer_run-Waits t k m.config cs state
        (record { circuit = e; at = t; failed = failed; late = omega arith }) within in
    ground (
      arith,
      lookup-run-some cs k m state found,
      w.circuit,
      config-run cs m,
      cooldown-early t now m.config (peer_run k m.config cs state) w h,
    )

-- A call that reports no result of the peer.
abbrev pub NoResult : String → ℕ × Call → Type 0
NoResult k (now, succeeds j) = j ≢ k
NoResult k (now, fails j) = j ≢ k
NoResult k (now, checks j b) = j ≢ k
NoResult k _ = Unit

if_about-half_open :
    (k : String) (config : BreakerConfig) (now : ℕ) (c : Call) (state : PeerState)
    → state.circuit ≡ half_open
    → NoResult k (now, c)
    → if_about k config now c state ≡ state
if_about-half_open k config now (asks j) state e h = ground arith
if_about-half_open k config now (succeeds j) state e h = ground (arith, eq_iff j k)
if_about-half_open k config now (fails j) state e h = ground (arith, eq_iff j k)
if_about-half_open k config now (checks j b) state e h = ground (arith, eq_iff j k)
if_about-half_open k config now (learns j skills) state e h = ground arith

peer_run-half_open :
    (k : String) (config : BreakerConfig) (cs : List (ℕ × Call)) (state : PeerState)
    → state.circuit ≡ half_open
    → All (NoResult k) cs
    → peer_run k config cs state ≡ state
unfolding peer_run
peer_run-half_open k config [] state e h = refl
peer_run-half_open k config ((now, c) ∷ cs) state e (here, later) =
    rw (if_about-half_open k config now c state e here)
      (peer_run-half_open k config cs state e later)

-- While a circuit is half-open, no further caller is let through, whatever happens to other peers,
-- until a result of the peer is recorded.
pub half_open-exclusive :
    (k : String) (cs : List (ℕ × Call)) (now : ℕ) (m : Manager) (state : PeerState)
    → IsConsistent m
    → 0 < m.config.failure_threshold
    → lookup k m.states ≡ some state
    → state.circuit ≡ half_open
    → All (NoResult k) cs
    → is_available k now (run cs m) ≡ (run cs m, false)
half_open-exclusive k cs now m state v positive found e quiet =
    half_open-refuses k now (run cs m) state (run-IsConsistent_from cs m v positive)
      (lookup-run-some cs k m state found
        ∙ ap {B = Option PeerState} some (peer_run-half_open k m.config cs state e quiet))
      e

-- A caller of an open circuit whose cooldown is over is let through, and the circuit is half-open.
pub is_available-probe :
    (k : String) (now : ℕ) (m : Manager) (state : PeerState)
    → lookup k m.states ≡ some state
    → state.circuit ≡ opened
    → cooldown_over m.config state.last_failure_at now ≡ true
    → ((is_available k now m).1 ≡ true)
      × (lookup k ((is_available k now m).0).states ≡ some (record state { circuit = half_open }))
unfolding is_available available_in
is_available-probe k now m state found e over =
    rw (is_available, found, available_in, e, over)
      (refl, lookup-insert_self k (record state { circuit = half_open }) m.states)

-- After that caller, no other is let through until a result is recorded.
pub probe-exclusive :
    (k : String) (cs : List (ℕ × Call)) (now later : ℕ) (m : Manager) (state : PeerState)
    → IsConsistent m
    → 0 < m.config.failure_threshold
    → lookup k m.states ≡ some state
    → state.circuit ≡ opened
    → cooldown_over m.config state.last_failure_at now ≡ true
    → All (NoResult k) cs
    → (is_available k later (run cs ((is_available k now m).0))).1 ≡ false
unfolding run step
probe-exclusive k cs now later m state v positive found e over quiet =
    ap (λ r. r.1)
      (half_open-exclusive k cs later ((is_available k now m).0)
        (record state { circuit = half_open })
        (run-IsConsistent_from ((now, asks k) ∷ []) m v positive)
        (subst (λ (b : BreakerConfig). 0 < b.failure_threshold) (sym (config-step now (asks k) m))
          positive)
        ((is_available-probe k now m state found e over).1) refl quiet)
