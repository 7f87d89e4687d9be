-- ===== src/Client/Fallback.antt =====
-- src/client.ts: which transport's answer a message gets.
use claw_crony.Base.{
  String, ◌≡◌, refl, ap, Bool, not, Option, none, some, List, [], ◌∷◌, arith, leb, if◌then◌else◌,
  length, find?,
}
use claw_crony.Transport.{Endpoint}
use claw_crony.Retry.{SendResult, Answer, returned, threw, settle, is_retryable}
use claw_crony.Client.{
  Network, transports_of, failure_of, do_send_via_transport, moves_on, try_transports,
  do_send_message,
}

-- An answer moves on to the next transport exactly when it is worth another attempt: the loop over the
-- transports and the loop over the attempts agree.
moves_on-is_retryable :
    (mentions : String → String → Bool) (answer : Answer)
    → moves_on mentions answer ≡ is_retryable mentions answer
unfolding moves_on is_retryable
moves_on-is_retryable mentions (returned r) = ground arith
moves_on-is_retryable mentions (threw failure text) = refl

module _ (mentions : String → String → Bool) (network : Network) where
  -- The answer of the endpoint ends the loop.
  abbrev pub decides : Endpoint → Bool
  decides e = not (is_retryable mentions (do_send_via_transport network e))

  abbrev pub answer_of : Option Endpoint → SendResult
  answer_of none = failure_of "All transports failed"
  answer_of (some e) = settle (do_send_via_transport network e)

  try_transports-find? :
      (endpoints : List Endpoint)
      → try_transports mentions network endpoints ≡ answer_of (find? decides endpoints)
  unfolding try_transports
  try_transports-find? [] = refl
  try_transports-find? (e ∷ endpoints) = ground (
    arith,
    moves_on-is_retryable mentions (do_send_via_transport network e),
    try_transports-find? endpoints,
  )

-- With two transports or more, an attempt returns the answer of the first one, in the order of
-- `orderTransports`, whose answer is not retryable by the test that the retries use too, and else
-- the failure of all of them; with fewer, or without a card, what the SDK gives by itself.
pub do_send_message-find? :
    (mentions : String → String → Bool) (network : Network)
    → do_send_message mentions network ≡ (
        if leb (length (transports_of network.card)) 1
        then network.via_factory
        else returned (
            answer_of mentions network
              (find? (decides mentions network) (transports_of network.card))))
unfolding do_send_message
do_send_message-find? mentions network =
    ap
      (λ r. if leb (length (transports_of network.card)) 1 then network.via_factory else returned r)
      (try_transports-find? mentions network (transports_of network.card))
