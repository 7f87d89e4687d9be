-- ===== src/Internal/Envelope/Accept.antt =====
-- `validateEnvelope` and `createEnvelope` of internal/envelope.ts: when an envelope is accepted.
use claw_crony.Base.{
  ℕ, ◌+◌, ◌≤◌, ◌<◌, ◌≡◌, ◌≢◌, ◌↔◌, refl, ap, sym, subst, String, true, Option, none, some, [],
  arith,
}
use claw_crony.Internal.Envelope.{
  Quantity, thousandths, texts, Envelope, Config, CreateOpts, or_default, create_envelope, valid,
  threw, message_types, includes, ttl_ms, size_verdict, parsed, validate_envelope,
}
use claw_crony.Internal.Envelope.Checks.{HasText, IsOutside, IsBelow, IsWelcome, validate_iff}

abbrev pub Fits : Option ℕ → ℕ → Type 0
Fits o limit = (n : ℕ) × (o ≡ some n) × (n ≤ limit)

size_valid_iff : (o : Option ℕ) (limit : ℕ) → ((size_verdict o limit ≡ valid) ↔ Fits o limit)
size_valid_iff none limit = (λ h. cc, λ h. cc (h.1))
size_valid_iff (some n) limit = (
  λ h. (n, refl, ground arith),
  λ h. subst (λ o. size_verdict o limit ≡ valid) (sym (h.1)) (fitting (h.0) (h.2)),
)
  where
    fitting : (m : ℕ) → m ≤ limit → size_verdict (some m) limit ≡ valid
    fitting m h = ground arith

size_threw_iff : (o : Option ℕ) (limit : ℕ) → ((size_verdict o limit ≡ threw) ↔ (o ≡ none))
size_threw_iff none limit = (λ h. refl, λ h. refl)
size_threw_iff (some n) limit = (λ h. ground arith, λ h. cc)

-- An envelope is accepted exactly when it has the version, the required texts, a known type, a
-- positive time to live, a whole hop count, an array as path and a date; when that date plus the time
-- to live is later than now, the gateway is not on the path, and the hop count is below the limit; and
-- when its payload has a JSON text within the size limit.
pub validate-valid_iff :
    (parse_date : String → Option ℕ) (now : ℕ) (e : Envelope) (config : Config)
    → ((validate_envelope parse_date now e config ≡ valid)
        ↔ IsWelcome parse_date now e config (Fits e.payload_bytes config.max_payload_bytes))
validate-valid_iff f now e config =
    validate_iff f valid now e config (λ c h. cc)
      (size_valid_iff e.payload_bytes config.max_payload_bytes)

-- Validation throws exactly when an envelope passes every check before the one of the size, and its
-- payload has no JSON text.
pub validate-threw_iff :
    (parse_date : String → Option ℕ) (now : ℕ) (e : Envelope) (config : Config)
    → ((validate_envelope parse_date now e config ≡ threw)
        ↔ IsWelcome parse_date now e config (e.payload_bytes ≡ none))
validate-threw_iff f now e config =
    validate_iff f threw now e config (λ c h. cc)
      (size_threw_iff e.payload_bytes config.max_payload_bytes)

-- An envelope with a known type, a source gateway, ids and a date that are not empty, and the default time
-- to live, hop count and path is accepted, by a gateway that allows a hop and the size of its payload,
-- exactly before 300 seconds from its timestamp are over.
pub validate-create :
    (parse_date : String → Option ℕ) (id key timestamp : String) (opts : CreateOpts)
    (config : Config) (time now n : ℕ)
    → parse_date timestamp ≡ some time
    → HasText (some id)
    → HasText (some (or_default opts.idempotency_key key))
    → HasText (some timestamp)
    → HasText opts.source.gateway_id
    → includes message_types opts.message_type ≡ true
    → opts.ttl_seconds ≡ none
    → opts.hop_count ≡ none
    → opts.route_path ≡ none
    → opts.payload_bytes ≡ some n
    → n ≤ config.max_payload_bytes
    → 0 < config.max_hops
    → ((validate_envelope parse_date now (create_envelope id key timestamp opts) config ≡ valid)
        ↔ (now < time + 300_000))
unfolding create_envelope parsed
validate-create f id key ts opts config time now n parse hid hkey hts hsource htype httl hhop hpath
      hsize hfit hmax =
    (
      λ h.
          let timed =
            ((validate-valid_iff f now (create_envelope id key ts opts) config).0 h).1.1.1.1.1.1 in
          unexpired (timed.0) opts.ttl_seconds httl (cc (parse, timed.1)) (timed.2.0),
      λ h. (validate-valid_iff f now (create_envelope id key ts opts) config).1 (
        refl,
        (
          (
            hid,
            (
              hkey,
              (
                hts,
                (
                  hsource,
                  ((λ e. cc), (opts.message_type, refl, type-HasText opts.message_type htype)),
                ),
              ),
            ),
          ),
          (
            (opts.message_type, refl, htype),
            (
              (300_000, ap (λ o. or_default o (thousandths 300_000)) httl, omega arith),
              (
                (0, ap (λ o. or_default o (thousandths 0)) hhop),
                (
                  ([], ap (λ o. or_default o (texts [])) hpath),
                  (
                    time,
                    parse,
                    (
                      subst (λ o. now < time + ttl_ms (or_default o (thousandths 300_000)))
                          (sym httl) h,
                      (
                        subst (λ o. IsOutside config.gateway_id (or_default o (texts [])))
                            (sym hpath) tt,
                        (
                          subst (λ o. IsBelow (or_default o (thousandths 0)) config.max_hops)
                              (sym hhop) (omega (arith, hmax)),
                          (n, hsize, hfit),
                        ),
                      ),
                    ),
                  ),
                ),
              ),
            ),
          ),
        ),
      ),
    )
  where
    type-HasText : (t : String) → includes message_types t ≡ true → t ≢ ""
    type-HasText t h e = cc (subst (λ s. includes message_types s ≡ true) e h)

    unexpired :
        (t : ℕ) (ttl : Option Quantity)
        → ttl ≡ none
        → t ≡ time
        → now < t + ttl_ms (or_default ttl (thousandths 300_000))
        → now < time + 300_000
    unexpired t ttl none_given same h =
        subst (λ u. now < u + 300_000) same
          (subst (λ o. now < t + ttl_ms (or_default o (thousandths 300_000))) none_given h)
