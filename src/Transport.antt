-- ===== src/Transport.antt =====
-- src/transport-fallback.ts: the order in which a peer's transports are tried, and which errors are worth
-- another try. `message.toLowerCase().includes(word)` is the parameter `mentions`.
pub mod Order
mod Tests
use claw_crony.Base.{
  ℕ, ◌+◌, String, Bool, true, false, not, ◌||◌, List, [], ◌∷◌, ◌++◌, leb, ◌==◌, if◌then◌else◌,
  str_eq, any, filter,
}
use claw_crony.Base.Sort.{sort_by}

-- `TransportEndpoint`
pub record Endpoint : Type 0 where
  pub url : String
  pub transport : String

-- `PRIORITY_ORDER`
abbrev pub priority_order : List String
priority_order = "JSONRPC" ∷ "HTTP+JSON" ∷ "GRPC" ∷ []

-- `xs.indexOf(x)`, and the length of `xs` where the source has -1; it is used for known transports only.
abbrev pub index_of : String → List String → ℕ
index_of x [] = 0
index_of x (y ∷ ys) = if str_eq y x then 0 else 1 + index_of x ys

abbrev pub is_known : Endpoint → Bool
is_known e = any (λ t. str_eq t e.transport) priority_order

abbrev pub priority : Endpoint → ℕ
priority e = index_of e.transport priority_order

pub order_transports : List Endpoint → List Endpoint
unfolding sort_by
order_transports interfaces =
    sort_by priority (filter is_known interfaces) ++ filter (λ e. not (is_known e)) interfaces

-- What is thrown or returned: nothing, an `Error`, an object with a numeric status code, or another value.
pub data Failure : Type 0 where
  nothing : Failure
  thrown : String → Failure
  status : ℕ → Failure
  other : Failure

abbrev pub network_words : List String
network_words =
    "econnrefused" ∷ "econnreset" ∷ "etimedout" ∷ "epipe" ∷ "fetch failed" ∷ "network" ∷ "socket"
    ∷ "abort" ∷ "timeout" ∷ "timed out" ∷ "dns" ∷ "enotfound" ∷ "unavailable" ∷ "deadline exceeded"
    ∷ []

unfoldable pub is_retryable_transport_error : (String → String → Bool) → Failure → Bool
is_retryable_transport_error mentions nothing = false
is_retryable_transport_error mentions (thrown message) = any (mentions message) network_words
is_retryable_transport_error mentions (status code) = leb 500 code || code == 429
is_retryable_transport_error mentions other = false
