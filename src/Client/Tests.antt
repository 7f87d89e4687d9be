-- ===== src/Client/Tests.antt =====
-- Runs of src/client.ts.
use claw_crony.Base.{
  ℕ, String, ◌≡◌, refl, true, false, none, some, [], ◌∷◌, arith, eq_iff, str_eq, leb, if◌then◌else◌,
  length, find?,
}
use claw_crony.Transport.{Endpoint, thrown}
use claw_crony.Retry.{RetryConfig, Answer, returned, threw}
use claw_crony.PeerHealth.{is_available, run, fails}
use claw_crony.PeerHealth.Samples.{
  fresh, tripped, state_of_a, fresh_open, tripped_state, tripped-IsConsistent, tripped_threshold,
  tripped_over,
}
use claw_crony.Client.{Card, Network, transports_of, do_send_message, send_message}
use claw_crony.Client.Fallback.{decides, answer_of, do_send_message-find?}
use claw_crony.Client.Sent.{EndsAt, send_message-EndsAt, send_message-half_open}

abbrev at_port : String → String → Endpoint
at_port url transport = record { url = url; transport = transport }

abbrev card : Card
card = record {
  main = at_port "u1" "GRPC";
  additional = at_port "u2" "HTTP+JSON" ∷ at_port "u1" "GRPC" ∷ [];
}

abbrev done : Answer
done = returned (record { ok = true; status_code = 200; response = "hi" })

-- Only the main transport works.
abbrev answers : Endpoint → Answer
answers e = if str_eq e.url "u1" then done else threw (thrown "econnrefused") "refused"

abbrev network : Network
network = record {
  card = some card;
  via_factory = threw (thrown "bad") "bad";
  via_transport = answers;
}

abbrev lonely : Network
lonely = record { card = none; via_factory = threw (thrown "bad") "bad"; via_transport = answers }

abbrev retries : ℕ → RetryConfig
retries n = record { max_retries = n; base_delay_ms = 100; max_delay_ms = 150 }

do_send_message-find?_example : do_send_message str_eq network ≡ (
    if leb (length (transports_of (some card))) 1
    then network.via_factory
    else returned
        (answer_of str_eq network (find? (decides str_eq network) (transports_of (some card)))))
do_send_message-find?_example = do_send_message-find? str_eq network

send_message-EndsAt_example :
    (k : ℕ) × EndsAt str_eq
      (λ n. network)
      (λ n. 0)
      (retries 2)
      "a"
      5
      ((is_available "a" 0 fresh).0)
      (send_message str_eq (λ n. network) (λ n. 0) (retries 2) "a" 0 5 fresh)
      k
send_message-EndsAt_example =
    send_message-EndsAt str_eq (λ n. network) (λ n. 0) (retries 2) "a" 0 5 fresh (omega arith)
      fresh_open

lonely_throws : do_send_message str_eq lonely ≡ threw (thrown "bad") "bad"
unfolding do_send_message
lonely_throws = refl

send_message-half_open_example :
    ((send_message str_eq (λ n. lonely) (λ n. 0) (retries 0) "a" 130 135 tripped).answer
      ≡ threw (thrown "bad") "bad")
    × ((is_available "a" 900 (
          run ((140, fails "b") ∷ []) (
            (send_message str_eq (λ n. lonely) (λ n. 0) (retries 0) "a" 130 135 tripped).health))).1
        ≡ false)
send_message-half_open_example =
    send_message-half_open str_eq (λ n. lonely) (λ n. 0) (retries 0) "a" 130 135 tripped state_of_a
      (thrown "bad") "bad" ((140, fails "b") ∷ []) 900 tripped-IsConsistent tripped_threshold
      tripped_state refl tripped_over refl lonely_throws (ground (arith, eq_iff "b" "a"), tt)
