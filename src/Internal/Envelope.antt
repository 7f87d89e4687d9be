-- ===== src/Internal/Envelope.antt =====
-- src/internal/envelope.ts: making and validating an envelope. `Date.parse` is the parameter
-- `parse_date`; `generateId` and `toISOString` give texts that are arguments. What TypeScript types as
-- a number may hold anything at run time, so it is a `Quantity`; an absent field is `none`.
pub mod Checks
pub mod Accept
mod Tests
use claw_crony.Base.{
  ℕ, ◌+◌, ◌*◌, ◌%◌, String, Bool, true, false, not, ◌&&◌, ◌||◌, Option, none, some, List, [], ◌∷◌,
  leb, ltb, ◌==◌, if◌then◌else◌, str_eq, any,
}

-- A JavaScript value where a number is meant; finite numbers of 0 and more in thousandths.
pub data Quantity : Type 0 where
  thousandths : ℕ → Quantity
  negative not_finite not_a_number : Quantity

-- A value where an array of texts is meant.
pub data Texts : Type 0 where
  texts : List String → Texts
  other : Texts

pub record Source : Type 0 where
  pub gateway_id : Option String
  pub agent_id : Option String

pub record Destination : Type 0 where
  pub gateway_id : Option String
  pub agent_id : Option String
  pub route_key : Option String

-- `payload` is kept as the length of its JSON text in bytes: none where there is no JSON text.
pub record Envelope : Type 0 where
  pub protocol_version : Option String
  pub message_id : Option String
  pub idempotency_key : Option String
  pub correlation_id : Option String
  pub timestamp : Option String
  pub ttl_seconds : Quantity
  pub trace_id : Option String
  pub span_id : Option String
  pub source : Option Source
  pub destination : Option Destination
  pub message_type : Option String
  pub hop_count : Quantity
  pub route_path : Texts
  pub payload_bytes : Option ℕ

pub record Config : Type 0 where
  pub gateway_id : String
  pub max_hops : ℕ
  pub max_payload_bytes : ℕ

-- `CreateEnvelopeOpts`
pub record CreateOpts : Type 0 where
  pub source : Source
  pub destination : Destination
  pub message_type : String
  pub payload_bytes : Option ℕ
  pub ttl_seconds : Option Quantity
  pub correlation_id : Option String
  pub trace_id : Option String
  pub span_id : Option String
  pub idempotency_key : Option String
  pub hop_count : Option Quantity
  pub route_path : Option Texts

-- `a ?? b`
abbrev pub or_default {ℓ} : {A : Type ℓ} → Option A → A → A
or_default none b = b
or_default (some a) b = a

pub create_envelope : String → String → String → CreateOpts → Envelope
create_envelope id key timestamp opts = record {
  protocol_version = some "a2a/v1";
  message_id = some id;
  idempotency_key = some (or_default opts.idempotency_key key);
  correlation_id = opts.correlation_id;
  timestamp = some timestamp;
  ttl_seconds = or_default opts.ttl_seconds (thousandths 300_000);
  trace_id = opts.trace_id;
  span_id = opts.span_id;
  source = some opts.source;
  destination = some opts.destination;
  message_type = some opts.message_type;
  hop_count = or_default opts.hop_count (thousandths 0);
  route_path = or_default opts.route_path (texts []);
  payload_bytes = opts.payload_bytes;
}

-- `EnvelopeErrorCode`
pub data Code : Type 0 where
  invalid_version missing_field invalid_type expired loop_detected hop_limit payload_too_large :
      Code

-- `null`, an error with its code, or an exception.
pub data Verdict : Type 0 where
  valid : Verdict
  refused : Code → Verdict
  threw : Verdict

abbrev pub is_text : String → Option String → Bool
is_text t none = false
is_text t (some s) = str_eq s t

-- Neither undefined, null, nor empty.
abbrev pub is_present : Option String → Bool
is_present none = false
is_present (some s) = not (str_eq s "")

abbrev pub source_gateway : Option Source → Option String
source_gateway none = none
source_gateway (some s) = s.gateway_id

abbrev pub is_given {ℓ} : {A : Type ℓ} → Option A → Bool
is_given none = false
is_given (some a) = true

-- The loop over `requiredFields`.
pub has_required : Envelope → Bool
has_required e =
    is_present e.message_id
    && (is_present e.idempotency_key
        && (is_present e.timestamp
            && (is_present (source_gateway e.source)
                && (is_given e.destination && is_present e.message_type))))

-- `VALID_MESSAGE_TYPES`
abbrev pub message_types : List String
message_types = "command" ∷ "event" ∷ "response" ∷ "error" ∷ "ack" ∷ []

abbrev pub includes : List String → String → Bool
includes xs x = any (λ y. str_eq y x) xs

pub has_type : Option String → Bool
has_type none = false
has_type (some t) = includes message_types t

-- A finite number above 0.
abbrev pub ttl_ok : Quantity → Bool
ttl_ok (thousandths n) = ltb 0 n
ttl_ok _ = false

-- A whole number of 0 and more.
abbrev pub hops_ok : Quantity → Bool
hops_ok (thousandths n) = n % 1000 == 0
hops_ok _ = false

abbrev pub path_ok : Texts → Bool
path_ok (texts xs) = true
path_ok other = false

-- `ttl_seconds * 1000`
abbrev pub ttl_ms : Quantity → ℕ
ttl_ms (thousandths n) = n
ttl_ms _ = 0

-- `hop_count >= maxHops`
abbrev pub over_hops : Quantity → ℕ → Bool
over_hops (thousandths n) limit = leb (limit * 1000) n
over_hops _ limit = false

abbrev pub in_path : String → Texts → Bool
in_path id (texts xs) = includes xs id
in_path id other = false

-- `Buffer.byteLength(undefined)` throws.
abbrev pub size_verdict : Option ℕ → ℕ → Verdict
size_verdict none limit = threw
size_verdict (some n) limit = if ltb limit n then refused payload_too_large else valid

module _ (parse_date : String → Option ℕ) where
  pub parsed : Option String → Option ℕ
  parsed none = none
  parsed (some t) = parse_date t

  -- From the expiry on.
  pub validate_at : ℕ → ℕ → Envelope → Config → Verdict
  validate_at time now e config =
      if leb (time + ttl_ms e.ttl_seconds) now
      then refused expired
      else if in_path config.gateway_id e.route_path
      then refused loop_detected
      else if over_hops e.hop_count config.max_hops
      then refused hop_limit
      else size_verdict e.payload_bytes config.max_payload_bytes

  pub validate_envelope : ℕ → Envelope → Config → Verdict
  unfolding parsed validate_at
  validate_envelope now e config =
      if not (is_text "a2a/v1" e.protocol_version)
      then refused invalid_version
      else if not (has_required e)
      then refused missing_field
      else if not (has_type e.message_type)
      then refused invalid_type
      else if not (ttl_ok e.ttl_seconds)
      then refused missing_field
      else if not (hops_ok e.hop_count)
      then refused missing_field
      else if not (path_ok e.route_path)
      then refused missing_field
      else elim (parsed e.timestamp) [
        | none ↦ refused missing_field
        | some time ↦ validate_at time now e config
      ]

-- `A2AAck`
pub record Ack : Type 0 where
  pub protocol_version : String
  pub message_id : String
  pub correlation_id : Option String
  pub source_gateway_id : String
  pub message_type : String
  pub timestamp : String
  pub accepted : Bool
  pub reason : Option String

pub create_ack : String → String → Envelope → String → Bool → Option String → Ack
create_ack id timestamp e gateway_id accepted reason = record {
  protocol_version = "a2a/v1";
  message_id = id;
  correlation_id = e.message_id;
  source_gateway_id = gateway_id;
  message_type = "ack";
  timestamp = timestamp;
  accepted = accepted;
  reason = reason;
}
