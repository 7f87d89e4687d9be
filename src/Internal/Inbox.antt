-- ===== src/Internal/Inbox.antt =====
-- src/internal/transport.ts: the inbound server's handler and the outbound client. The parser of
-- URLs and of JSON, and the decoder of UTF-8, are arguments; a chunk is the list of its octets.
pub mod Chunks
pub mod Handed
mod Tests
use claw_crony.Base.{
  ℕ, zero, suc, ◌+◌, ◌-◌, ◌*◌, ◌/◌, ◌%◌, ◌^◌, ◌≤◌, ◌<◌, min, max, String, ◌≡◌, refl, sym, ap, ◌∙◌,
  subst, ◌≡⟨◌⟩◌, ◌∎, ◌≢◌, ◌↔◌, ◌⊎◌, inl, inr, Bool, true, false, not, ◌&&◌, ◌||◌, Option, none,
  some, List, [], ◌∷◌, ◌++◌, map, append-nil, append_assoc, arith, eq_iff, str_eq, ltb, leb, ◌==◌,
  if◌then◌else◌, ltb→lt, leb→le, lt→ltb, le→leb, ==_iff, Bool-cases, Option-cases, ◌>>=◌, length,
  length-append, take, drop, length-take, filter, length-filter-le, any, find?, All, All-append,
  All-filter, All-take, All-map_imp, List-cases, bit, count, count-append, count-filter_le, AnyOf,
  reverse, length-drop, length-reverse, take-append_le, take-length_le, reverse-drop,
  take-reverse-append, filter-append, filter-passes, All-reverse, WhenSome, bind-WhenSome,
  chain-WhenSome,
}
use claw_crony.Base.Text.{
  Text, codes, same, same_iff, starts_with, starts_with_append, starts_with_split, ends_with,
  ends_with_self, ends_with_append, ends_with_split, includes, lower_code, lower, lower-append,
  lower_idem, length-lower, is_space, trim_start, keep_unless_blank, trim_end, trim, cons_head,
  split, Free, split-append, split-Free, join, split-join, clip, length-clip_le,
}
use claw_crony.Base.Json.{
  Json, Items, Fields, get, put, keys, null, bool, num, str, arr, obj, nil, cons, end, field,
}
use claw_crony.Base.Integers.{ℤ, pos, negsuc}
use claw_crony.FileSecurity.Uri.{Url}
use claw_crony.FileSecurity.Numerals.{decimal_of}

-- What the request stream tells: a piece of the body, its end, or an error.
pub data BodyEvent : Type 0 where
  chunk : List ℕ → BodyEvent
  ended : BodyEvent
  errored : BodyEvent

-- What the promise of `readBody` comes to.
pub data Body : Type 0 where
  whole : List ℕ → Body
  too_large : Body
  broken : Body

-- `MAX_BODY_BYTES`
abbrev pub max_body_bytes : ℕ
max_body_bytes = 2 * 1024 * 1024

-- `readBody` with the octets so far; `none` where the stream does not come to an end.
unfoldable pub read_body : List ℕ → List BodyEvent → Option Body
read_body sofar [] = none
read_body sofar (ended ∷ es) = some (whole sofar)
read_body sofar (errored ∷ es) = some broken
read_body sofar (chunk b ∷ es) =
    let rest = read_body (sofar ++ b) es in
    if ltb max_body_bytes (length (sofar ++ b)) then some too_large else rest

-- `InboundHeaders`
pub record Headers : Type 0 where
  pub signature : Text
  pub timestamp : ℤ
  pub nonce : Text
  pub source_gateway_id : Text

pub data Header : Type 0 where
  absent : Header
  single : Text → Header
  several : List Text → Header

-- `headerString`
unfoldable pub header_string : Header → Text
header_string absent = []
header_string (single t) = t
header_string (several []) = []
header_string (several (t ∷ ts)) = t

-- `http.IncomingMessage`
pub record Incoming : Type 0 where
  pub url : Option Text
  pub method : Text
  pub content_type : Option Text
  pub signature : Header
  pub timestamp : Header
  pub nonce : Header
  pub source_gateway : Header
  pub body : List BodyEvent

pub record Reply : Type 0 where
  pub status_code : ℕ
  pub body : Json

abbrev pub problem : ℕ → String → Reply
problem status message = record {
  status_code = status;
  body = obj (field (codes "error") (str (codes message)) end);
}

-- A call of `onMessage`, and what it comes to.
pub record Message : Type 0 where
  pub envelope : Json
  pub raw_body : Text
  pub headers : Headers

pub data Handled : Type 0 where
  handled : ℕ → Text → Handled
  threw : Handled

-- `pathname` is that of the URL on the base http://localhost; `number` gives `none` for NaN.
pub record Web : Type 0 where
  pub pathname : Text → Option Text
  pub parse : Text → Option Json
  pub decode : List ℕ → Text
  pub number : Text → Option ℤ
  pub on_message : Message → Handled

abbrev pub or_zero : Option ℤ → ℤ
or_zero none = pos 0
or_zero (some n) = n

abbrev pub or_text : Option Text → String → Text
or_text none s = codes s
or_text (some t) s = t

module _ (web : Web) where
  unfoldable pub headers_of : Incoming → Headers
  unfolding header_string
  headers_of req = record {
    signature = header_string req.signature;
    timestamp = or_zero (web.number (header_string req.timestamp));
    nonce = header_string req.nonce;
    source_gateway_id = header_string req.source_gateway;
  }

  unfoldable pub reply_of : Handled → Reply
  reply_of threw = problem 500 "Internal server error"
  reply_of (handled status text) = elim (web.parse text) [
    | none ↦ problem 500 "Internal server error"
    | some body ↦ record { status_code = status; body = body }
  ]

  unfoldable pub process_body : Text → Incoming → Reply × List Message
  unfolding headers_of reply_of
  process_body raw req = elim (web.parse raw) [
    | none ↦ (problem 400 "Invalid JSON", [])
    | some envelope ↦
        let message : Message = record {
          envelope = envelope;
          raw_body = raw;
          headers = headers_of req;
        } in
        (reply_of (web.on_message message), message ∷ [])
  ]

  unfoldable pub with_body : Option Body → Incoming → Option Reply × List Message
  unfolding process_body
  with_body none req = (none, [])
  with_body (some too_large) req = (some (problem 413 "Payload too large"), [])
  with_body (some broken) req = (some (problem 500 "Internal server error"), [])
  with_body (some (whole b)) req =
      let result = process_body (web.decode b) req in (some (result.0), result.1)

  unfoldable pub at_path : Option Text → Incoming → Option Reply × List Message
  unfolding same includes with_body read_body
  at_path none req = (some (problem 400 "Malformed URL"), [])
  at_path (some path) req =
      if not (same path (codes "/a2a/v1/inbox"))
      then (some (problem 404 "Not found"), [])
      else if not (same req.method (codes "POST"))
      then (some (problem 405 "Method not allowed"), [])
      else if not (includes (or_text req.content_type "") (codes "application/json"))
      then (some (problem 400 "Content-Type must be application/json"), [])
      else with_body (read_body [] req.body) req

  -- The reply, `none` where the body does not come to an end, and the messages handed over.
  unfoldable pub handle_request : Incoming → Option Reply × List Message
  unfolding at_path
  handle_request req = at_path (web.pathname (or_text req.url "/")) req

-- `http.RequestOptions`, but for its constants
pub record Options : Type 0 where
  pub is_https : Bool
  pub hostname : Text
  pub port : Text
  pub path : Text
  pub headers : List (Text × Text)
  pub body : Text

-- `OutboundResult`
pub record OutboundResult : Type 0 where
  pub success : Bool
  pub status_code : ℕ
  pub body : Text

unfoldable pub options_of : (Text → ℕ) → Url → Text → Text → ℕ → Text → Text → Options
unfolding same decimal_of
options_of byte_length url body signature timestamp nonce source_gateway_id =
    let secure = same url.protocol (codes "https:") in
    let default = if secure then codes "443" else codes "80" in
    record {
      is_https = secure;
      hostname = url.hostname;
      port = if length url.port == 0 then default else url.port;
      path = url.pathname ++ url.search;
      body = body;
      headers =
          (codes "Content-Type", codes "application/json")
          ∷ (codes "Content-Length", decimal_of (byte_length body))
          ∷ (codes "X-A2A-Signature", signature)
          ∷ (codes "X-A2A-Timestamp", decimal_of timestamp)
          ∷ (codes "X-A2A-Nonce", nonce)
          ∷ (codes "X-A2A-Source-Gateway", source_gateway_id)
          ∷ [];
    }

-- The first of these events settles the promise of `send`.
pub data Outbound : Type 0 where
  responded : ℕ → Text → Outbound
  read_failed : Outbound
  timed_out : Outbound
  failed : Text → Outbound

abbrev pub failure : Text → OutboundResult
failure body = record { success = false; status_code = 0; body = body }

unfoldable pub result_of : Outbound → OutboundResult
result_of (responded status body) = record {
  success = leb 200 status && ltb status 300;
  status_code = status;
  body = body;
}
result_of read_failed = failure (codes "Response read error")
result_of timed_out = failure (codes "Request timeout")
result_of (failed []) = failure (codes "Connection error")
result_of (failed (c ∷ t)) = failure (c ∷ t)
