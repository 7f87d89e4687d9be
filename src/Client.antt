-- ===== src/Client.antt =====
-- src/client.ts: sending to a peer, with the circuit breaker of src/peer-health.ts, the retries of
-- src/peer-retry.ts and the transports of src/transport-fallback.ts. The SDK is an argument: what a
-- peer's card says, and what each transport answers.
use claw_crony.Base.{
  ℕ, zero, suc, ◌+◌, ◌-◌, ◌*◌, ◌/◌, ◌%◌, ◌^◌, ◌≤◌, ◌<◌, min, max, String, ◌≡◌, refl, sym, ap, ◌∙◌,
  subst, ◌≡⟨◌⟩◌, ◌∎, ◌≢◌, ◌↔◌, ◌⊎◌, inl, inr, Bool, true, false, not, ◌&&◌, ◌||◌, Option, none,
  some, List, [], ◌∷◌, ◌++◌, map, append-nil, append_assoc, arith, eq_iff, str_eq, ltb, leb, ◌==◌,
  if◌then◌else◌, ltb→lt, leb→le, lt→ltb, le→leb, ==_iff, Bool-cases, Option-cases, ◌>>=◌, length,
  length-append, take, drop, length-take, filter, length-filter-le, any, find?, All, All-append,
  All-filter, All-take, All-map_imp, List-cases, bit, count, count-append, count-filter_le, AnyOf,
  reverse, length-reverse, take-append_le, take-length_le, reverse-drop, take-reverse-append,
  filter-append, filter-passes, All-reverse, WhenSome, bind-WhenSome, chain-WhenSome,
}
use claw_crony.Transport.{Endpoint, Failure, status, order_transports, is_retryable_transport_error}
use claw_crony.Retry.{SendResult, RetryConfig, Answer, returned, threw, settle, with_retry}
use claw_crony.PeerHealth.{Manager, is_available, record_success, record_failure}
pub mod Fallback
pub mod Sent
mod Tests

-- The transports of a card: the main one, and the additional interfaces.
pub record Card : Type 0 where
  pub main : Endpoint
  pub additional : List Endpoint

-- What the SDK does for the peer in one attempt: the card, where it can be resolved; the answer by
-- the transport of its own choice; and the answer of each endpoint.
pub record Network : Type 0 where
  pub card : Option Card
  pub via_factory : Answer
  pub via_transport : Endpoint → Answer

abbrev pub same_endpoint : Endpoint → Endpoint → Bool
same_endpoint a b = str_eq a.url b.url && str_eq a.transport b.transport

-- `allInterfaces`
abbrev pub all_interfaces : Card → List Endpoint
all_interfaces card = card.main ∷ filter (λ e. not (same_endpoint e card.main)) card.additional

unfoldable pub transports_of : Option Card → List Endpoint
transports_of none = []
transports_of (some card) = order_transports (all_interfaces card)

abbrev pub failure_of : String → SendResult
failure_of text = record { ok = false; status_code = 500; response = text }

abbrev pub is_supported : String → Bool
is_supported t = str_eq t "JSONRPC" || str_eq t "HTTP+JSON" || str_eq t "GRPC"

-- `doSendViaTransport`
unfoldable pub do_send_via_transport : Network → Endpoint → Answer
do_send_via_transport network endpoint =
    if is_supported endpoint.transport
    then network.via_transport endpoint
    else returned (failure_of "Unsupported transport")

-- What a call of `sendMessage` comes to.
pub record Outcome : Type 0 where
  pub answer : Answer
  pub sends : ℕ
  pub health : Manager

abbrev pub circuit_open : SendResult
circuit_open = record { ok = false; status_code = 503; response = "Circuit open" }

abbrev pub or_nothing : Option SendResult → SendResult
or_nothing none = failure_of "undefined"
or_nothing (some r) = r

-- `recordSuccess` or `recordFailure`, by the result.
unfoldable pub recorded : String → ℕ → SendResult → Manager → Manager
recorded peer now result m = if result.ok then record_success peer m else record_failure peer now m

-- Where the one attempt throws, `sendMessage` throws, and nothing is recorded.
unfoldable pub finish : String → ℕ → ℕ → Answer → Manager → Outcome
unfolding recorded
finish peer now sends (returned result) m = record {
  answer = returned result;
  sends = sends;
  health = recorded peer now result m;
}
finish peer now sends (threw failure text) m = record {
  answer = threw failure text;
  sends = sends;
  health = m;
}

module _ (mentions : String → String → Bool) where
  -- The answer goes to the next transport: a result that is not ok, or an error, that
  -- `isRetryableTransportError` takes for one of the transport.
  unfoldable pub moves_on : Answer → Bool
  unfolding is_retryable_transport_error
  moves_on (returned r) =
      not (r.ok || not (is_retryable_transport_error mentions (status r.status_code)))
  moves_on (threw failure text) = is_retryable_transport_error mentions failure

  -- The loop over the transports.
  unfoldable pub try_transports : Network → List Endpoint → SendResult
  unfolding moves_on do_send_via_transport
  try_transports network [] = failure_of "All transports failed"
  try_transports network (endpoint ∷ endpoints) =
      let answer = do_send_via_transport network endpoint in
      let rest = try_transports network endpoints in if moves_on answer then rest else settle answer

  -- `doSendMessage`, once the message is built.
  unfoldable pub do_send_message : Network → Answer
  unfolding transports_of try_transports
  do_send_message network =
      let transports = transports_of network.card in
      if leb (length transports) 1
      then network.via_factory
      else returned (try_transports network transports)

  module _ (network : ℕ → Network) (random : ℕ → ℕ) (config : RetryConfig) (peer : String) where
    -- The attempts, with `withRetry` where retries are configured.
    unfoldable pub send_available : ℕ → Manager → Outcome
    unfolding do_send_message finish
    send_available later m =
        let run = with_retry mentions (λ n. do_send_message (network n)) random config in
        if ltb 0 config.max_retries
        then finish peer later run.calls (returned (or_nothing run.result)) m
        else finish peer later 1 (do_send_message (network 0)) m

    -- `sendMessage` with a health manager: the call starts at `now` and ends at `later`.
    unfoldable pub send_message : ℕ → ℕ → Manager → Outcome
    unfolding send_available
    send_message now later m =
        let asked = is_available peer now m in
        if asked.1
        then send_available later (asked.0)
        else record { answer = returned circuit_open; sends = 0; health = asked.0 }
