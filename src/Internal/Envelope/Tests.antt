-- ===== src/Internal/Envelope/Tests.antt =====
-- Runs of internal/envelope.ts.
use claw_crony.Base.{ℕ, ◌≡◌, ◌↔◌, refl, String, Option, none, some, if◌then◌else◌, str_eq}
use claw_crony.Internal.Envelope.{
  Source, Envelope, Config, CreateOpts, create_envelope, valid, threw, refused, expired, has_type,
  has_required, validate_envelope, validate_at, parsed,
}
use claw_crony.Internal.Envelope.Checks.{IsWelcome}
use claw_crony.Internal.Envelope.Accept.{Fits, validate-valid_iff}

abbrev parse_date : String → Option ℕ
parse_date s = if str_eq s "2026-01-01" then some 1_000 else none

abbrev config : Config
config = record { gateway_id = "b"; max_hops = 3; max_payload_bytes = 100 }

abbrev source : Source
source = record { gateway_id = some "a"; agent_id = none }

abbrev opts : Option ℕ → CreateOpts
opts size = record {
  source = source;
  destination = record { gateway_id = some "b"; agent_id = none; route_key = none };
  message_type = "command";
  payload_bytes = size;
  ttl_seconds = none;
  correlation_id = none;
  trace_id = none;
  span_id = none;
  idempotency_key = none;
  hop_count = none;
  route_path = none;
}

abbrev fresh : Option ℕ → Envelope
fresh size = create_envelope "m" "k" "2026-01-01" (opts size)

fresh-valid : validate_envelope parse_date 300_999 (fresh (some 5)) config ≡ valid
unfolding create_envelope has_required has_type parsed validate_at validate_envelope
fresh-valid = refl

fresh-expired : validate_envelope parse_date 301_000 (fresh (some 5)) config ≡ refused expired
unfolding create_envelope has_required has_type parsed validate_at validate_envelope
fresh-expired = refl

fresh-threw : validate_envelope parse_date 2_000 (fresh none) config ≡ threw
unfolding create_envelope has_required has_type parsed validate_at validate_envelope
fresh-threw = refl

validate-valid_iff_example :
    (validate_envelope parse_date 2_000 (fresh (some 5)) config ≡ valid)
    ↔ IsWelcome parse_date 2_000 (fresh (some 5)) config (Fits (fresh (some 5)).payload_bytes 100)
validate-valid_iff_example = validate-valid_iff parse_date 2_000 (fresh (some 5)) config
