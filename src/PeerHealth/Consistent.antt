-- ===== src/PeerHealth/Consistent.antt =====
-- The invariant of the peer manager: who holds the half-open slot, and what a circuit says.
use claw_crony.Base.{
  ℕ, ◌<◌, ◌≡◌, ◌≢◌, refl, String, Bool, true, false, Option, none, some, List, [], ◌∷◌, arith,
  if◌then◌else◌, str_eq, eq_iff, Bool-cases, subst, sym, Option-cases, inl, inr,
}
use claw_crony.Base.Dict.{Dict, lookup, insert, lookup-insert, lookup-nil}
use claw_crony.PeerHealth.{
  Health, unhealthy, Circuit, closed, opened, half_open, PeerState, BreakerConfig, Manager,
  fresh_state, init_states, init, has, add, delete, cooldown_over, available_in, is_available,
  record_success, record_failure, fail_in, counted_failure, set_peer_skills, check_peer, Call, asks,
  succeeds, fails, checks, learns, step, run,
}

pub has-add :
    (k j : String) (xs : List String) → has j (add k xs) ≡ (if str_eq k j then true else has j xs)
has-add k j xs = ground (arith, eq_iff k j)

pub has-delete :
    (k j : String) (xs : List String)
    → has j (delete k xs) ≡ (if str_eq k j then false else has j xs)
has-delete k j [] = ground arith
has-delete k j (x ∷ xs) = ground (arith, has-delete k j xs, eq_iff x k, eq_iff x j, eq_iff k j)

abbrev FitsIn : BreakerConfig → Bool → PeerState → Circuit → Type 0
FitsIn config held state closed =
    (held ≡ false) × (state.consecutive_failures < config.failure_threshold)
FitsIn config held state opened = (held ≡ false) × (state.last_failure_at ≢ none)
FitsIn config held state half_open = held ≡ true

-- A name holds the half-open slot exactly when its circuit is half-open; a closed circuit has seen
-- fewer failures than the threshold; an open one knows when it failed.
abbrev pub Fits : BreakerConfig → Bool → Option PeerState → Type 0
Fits config held none = held ≡ false
Fits config held (some state) = FitsIn config held state state.circuit

abbrev pub IsConsistent : Manager → Type 0
IsConsistent m = (j : String) → Fits m.config (has j m.in_flight) (lookup j m.states)

-- A write of one peer's state and slot.
write-IsConsistent :
    (k : String) (state : PeerState) (held : List String) (b : Bool) (m : Manager)
    → IsConsistent m
    → ((j : String) → has j held ≡ (if str_eq k j then b else has j m.in_flight))
    → Fits m.config b (some state)
    → IsConsistent (record m { states = insert k state m.states; in_flight = held })
write-IsConsistent k state held b m v slot h j = elim (Bool-cases (str_eq k j)) [
  | inl same ↦ rw (lookup-insert k j state m.states, slot j, same) h
  | inr other ↦ rw (lookup-insert k j state m.states, slot j, other) (v j)
]

fits_at :
    (k : String) (m : Manager) (state : PeerState)
    → IsConsistent m
    → lookup k m.states ≡ some state
    → FitsIn m.config (has k m.in_flight) state state.circuit
fits_at k m state v found = subst (Fits m.config (has k m.in_flight)) found (v k)

fail_in-Fits :
    (config : BreakerConfig) (now : ℕ) (state : PeerState)
    → Fits config false (some (fail_in config state.circuit (counted_failure now state)))
unfolding fail_in
fail_in-Fits config now state = ground arith

-- In the half-open state the slot is always taken, so a caller is refused.
pub half_open-refuses :
    (k : String) (now : ℕ) (m : Manager) (state : PeerState)
    → IsConsistent m
    → lookup k m.states ≡ some state
    → state.circuit ≡ half_open
    → is_available k now m ≡ (m, false)
unfolding is_available available_in
half_open-refuses k now m state v found e =
    let taken : has k m.in_flight ≡ true = rw e at (fits_at k m state v found) in
    rw (found, is_available) (rw (e, available_in) (rw taken))

module _ (k : String) (now : ℕ) (m : Manager) (v : IsConsistent m) where
  available_in-IsConsistent :
      (state : PeerState) (c : Circuit)
      → lookup k m.states ≡ some state
      → state.circuit ≡ c
      → IsConsistent (available_in k now state c m).0
  unfolding available_in
  available_in-IsConsistent state closed found e = v
  available_in-IsConsistent state opened found e =
      elim (Bool-cases (cooldown_over m.config state.last_failure_at now)) [
        | inl over ↦ rw over (
            write-IsConsistent k (record state { circuit = half_open }) (add k m.in_flight) true m v
              (λ j. has-add k j m.in_flight) refl)
        | inr early ↦ rw early v
      ]
  available_in-IsConsistent state half_open found e =
      let taken : has k m.in_flight ≡ true = rw e at (fits_at k m state v found) in rw taken v

  is_available-IsConsistent : IsConsistent (is_available k now m).0
  unfolding is_available
  is_available-IsConsistent = elim (Option-cases (lookup k m.states)) [
    | inl missing ↦ rw (missing, is_available) v
    | inr (state, found) ↦
        rw (found, is_available) (available_in-IsConsistent state state.circuit found refl)
  ]

  record_success-IsConsistent : 0 < m.config.failure_threshold → IsConsistent (record_success k m)
  unfolding record_success
  record_success-IsConsistent positive = elim (Option-cases (lookup k m.states)) [
    | inl missing ↦ rw (missing, record_success) v
    | inr (state, found) ↦
        rw (found, record_success)
          (write-IsConsistent k _ (delete k m.in_flight) false m v (λ j. has-delete k j m.in_flight)
            (refl, positive))
  ]

  record_failure-IsConsistent : IsConsistent (record_failure k now m)
  unfolding record_failure
  record_failure-IsConsistent = elim (Option-cases (lookup k m.states)) [
    | inl missing ↦ rw (missing, record_failure) v
    | inr (state, found) ↦
        rw (found, record_failure)
          (write-IsConsistent k _ (delete k m.in_flight) false m v (λ j. has-delete k j m.in_flight)
            (fail_in-Fits m.config now state))
  ]

-- A note of a check changes neither the circuit nor what it says.
FitsIn-note :
    (config : BreakerConfig) (b : Bool) (state : PeerState) (h : Health) (t : Option ℕ)
    (c : Circuit)
    → FitsIn config b state c
    → FitsIn config b (record state { health = h; last_check_at = t }) c
FitsIn-note config b state h t closed f = f
FitsIn-note config b state h t opened f = f
FitsIn-note config b state h t half_open f = f

note-IsConsistent :
    (k : String) (m : Manager) (state : PeerState) (h : Health) (t : Option ℕ)
    → IsConsistent m
    → lookup k m.states ≡ some state
    → IsConsistent
        (record m { states = insert k (record state { health = h; last_check_at = t }) m.states })
note-IsConsistent k m state h t v found =
    write-IsConsistent k _ m.in_flight (has k m.in_flight) m v (λ j. ground (arith, eq_iff k j))
      (FitsIn-note m.config _ state h t state.circuit (fits_at k m state v found))

check_peer-IsConsistent :
    (k : String) (b : Bool) (now : ℕ) (m : Manager)
    → IsConsistent m
    → 0 < m.config.failure_threshold
    → IsConsistent (check_peer k b now m)
unfolding check_peer
check_peer-IsConsistent k b now m v positive = elim (Option-cases (lookup k m.states)) [
  | inl missing ↦ rw (missing, check_peer) v
  | inr (state, found) ↦ rw (found, check_peer) (go b state found)
]
  where
    go :
        (b : Bool) (state : PeerState)
        → lookup k m.states ≡ some state
        → IsConsistent (
            if b
            then record_success k (record m {
              states = insert k (record state { last_check_at = some now }) m.states;
            })
            else record_failure k now (record m {
              states =
                  insert k (record state { health = unhealthy; last_check_at = some now }) m.states;
            }))
    go true state found =
        record_success-IsConsistent k now _
          (note-IsConsistent k m state state.health (some now) v found) positive
    go false state found =
        record_failure-IsConsistent k now _
          (note-IsConsistent k m state unhealthy (some now) v found)

pub config-step : (now : ℕ) (c : Call) (m : Manager) → (step now c m).config ≡ m.config
unfolding step is_available available_in record_success record_failure check_peer set_peer_skills
config-step now (asks k) m = ground arith
config-step now (succeeds k) m = ground arith
config-step now (fails k) m = ground arith
config-step now (checks k b) m = ground arith
config-step now (learns k skills) m = refl

pub step-IsConsistent :
    (now : ℕ) (c : Call) (m : Manager)
    → IsConsistent m
    → 0 < m.config.failure_threshold
    → IsConsistent (step now c m)
unfolding step
step-IsConsistent now (asks k) m v positive = is_available-IsConsistent k now m v
step-IsConsistent now (succeeds k) m v positive = record_success-IsConsistent k now m v positive
step-IsConsistent now (fails k) m v positive = record_failure-IsConsistent k now m v
step-IsConsistent now (checks k b) m v positive = check_peer-IsConsistent k b now m v positive
step-IsConsistent now (learns k skills) m v positive = unfold set_peer_skills in v

pub run-IsConsistent_from :
    (cs : List (ℕ × Call)) (m : Manager)
    → IsConsistent m
    → 0 < m.config.failure_threshold
    → IsConsistent (run cs m)
unfolding run
run-IsConsistent_from [] m v positive = v
run-IsConsistent_from ((now, c) ∷ cs) m v positive =
    run-IsConsistent_from cs (step now c m) (step-IsConsistent now c m v positive)
      (subst (λ (b : BreakerConfig). 0 < b.failure_threshold) (sym (config-step now c m)) positive)

init_states-Fits :
    (config : BreakerConfig) (j : String) (peers : List String) (states : Dict PeerState)
    → 0 < config.failure_threshold
    → Fits config false (lookup j states)
    → Fits config false (lookup j (init_states peers states))
unfolding init_states
init_states-Fits config j [] states positive h = h
init_states-Fits config j (k ∷ peers) states positive h =
    init_states-Fits config j peers (insert k fresh_state states) positive
      (elim (Bool-cases (str_eq k j)) [
        | inl same ↦ rw (lookup-insert k j fresh_state states, same) (refl, positive)
        | inr other ↦ rw (lookup-insert k j fresh_state states, other) h
      ])

-- With a positive threshold, after any history and for every name: the name holds the half-open slot
-- exactly when its circuit is half-open; a closed circuit has counted fewer failures than the
-- threshold; an open circuit has the time of its last failure.
pub run-init-IsConsistent :
    (peers : List String) (config : BreakerConfig) (cs : List (ℕ × Call))
    → 0 < config.failure_threshold
    → IsConsistent (run cs (init peers config))
run-init-IsConsistent peers config cs positive =
    run-IsConsistent_from cs (init peers config)
      (unfold init in λ j. init_states-Fits config j peers [] positive (rw (lookup-nil j) refl))
      (unfold init in positive)
