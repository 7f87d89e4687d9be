-- ===== src/Telemetry/Peers.antt =====
-- The peers that a snapshot of src/telemetry.ts shows.
use claw_crony.Base.{
  ℕ, ◌≡◌, refl, subst, String, Bool, Option, none, some, List, [], ◌∷◌, count, eq_iff, Bool-cases,
  inl, inr, str_eq, ◌∙◌, ap,
}
use claw_crony.Base.Dict.{Dict, lookup, lookup-insert, lookup-insert_self, lookup-nil, NodupKeys}
use claw_crony.PeerHealth.{PeerState}
use claw_crony.Telemetry.{PeerMetrics, or_zero, describe, peer_metrics, snapshot}
use claw_crony.Telemetry.Events.{Event, run}
use claw_crony.Telemetry.Tally.{retries_of, run-retries}

abbrev pub shown : ℕ → Option PeerState → Option PeerMetrics → Option PeerMetrics
shown retries none earlier = earlier
shown retries (some s) earlier = some (describe retries s)

lookup-peer_metrics :
    (retries : Dict ℕ) (p : String) (states : Dict PeerState) (peers : Dict PeerMetrics)
    → NodupKeys states
    → lookup p (peer_metrics retries states peers)
      ≡ shown (or_zero (lookup p retries)) (lookup p states) (lookup p peers)
unfolding lookup peer_metrics
lookup-peer_metrics retries p [] peers u = refl
lookup-peer_metrics retries p ((name, s) ∷ states) peers (fresh, u) =
    elim (Bool-cases (str_eq name p)) [
      | inl e ↦
          subst
            (λ q.
              lookup q (peer_metrics retries ((name, s) ∷ states) peers)
              ≡ shown (or_zero (lookup q retries)) (lookup q ((name, s) ∷ states)) (lookup q peers))
            ((eq_iff name p).0 e)
            (rw ((eq_iff name name).1 refl) (
              lookup-peer_metrics retries name states _ u
              ∙ rw fresh
                  (lookup-insert_self name (describe (or_zero (lookup name retries)) s) peers)))
      | inr e ↦ rw e (
          lookup-peer_metrics retries p states _ u
          ∙ ap (shown (or_zero (lookup p retries)) (lookup p states))
              (lookup-insert name p (describe (or_zero (lookup name retries)) s) peers ∙ rw e refl))
    ]

-- After any calls the snapshot shows exactly the peers whose state the health manager gives, each with that
-- state and with the number of its recorded retries.
pub snapshot-peers :
    (is_timeout : String → Bool) (events : List Event) (states : Dict PeerState) (p : String)
    → NodupKeys states
    → lookup p (snapshot states (run is_timeout events)).peers
      ≡ shown (count (retries_of p) events) (lookup p states) none
unfolding snapshot
snapshot-peers f events states p u =
    subst
      (λ n.
        lookup p (peer_metrics (run f events).peer_retries states [])
        ≡ shown n (lookup p states) none)
      (run-retries f p events)
      (subst
        (λ o.
          lookup p (peer_metrics (run f events).peer_retries states [])
          ≡ shown (or_zero (lookup p (run f events).peer_retries)) (lookup p states) o)
        (lookup-nil p) (lookup-peer_metrics (run f events).peer_retries p states [] u))
