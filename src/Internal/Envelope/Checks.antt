-- ===== src/Internal/Envelope/Checks.antt =====
-- `validateEnvelope` of internal/envelope.ts: what each check of it asks for.
use claw_crony.Base.{
  ℕ, ◌+◌, ◌*◌, ◌/◌, ◌<◌, ◌≡◌, ◌≢◌, ◌↔◌, refl, ap, sym, subst, String, Bool, true, false, not, ◌&&◌,
  Option, none, some, List, [], ◌∷◌, arith, leb, All, if◌then◌else◌, eq_iff,
}
use claw_crony.Internal.Envelope.{
  Quantity, thousandths, negative, not_finite, not_a_number, Texts, texts, other, Envelope, Config,
  Code, Verdict, refused, missing_field, expired, loop_detected, hop_limit, invalid_version,
  invalid_type, is_text, is_present, source_gateway, is_given, has_required, message_types,
  includes, has_type, ttl_ok, hops_ok, path_ok, ttl_ms, over_hops, in_path, size_verdict, parsed,
  validate_at, validate_envelope,
}

-- A text that is there and not empty.
abbrev pub HasText : Option String → Type 0
HasText o = (t : String) × (o ≡ some t) × (t ≢ "")

is_present_iff : (o : Option String) → (is_present o ≡ true) ↔ HasText o
is_present_iff none = (λ h. cc, λ h. cc (h.1))
is_present_iff (some t) =
    (λ h. (t, refl, ground (arith, eq_iff t "")), λ h. ground (arith, eq_iff t "", h.1, h.2))

includes-All : (xs : List String) (x : String) → (includes xs x ≡ false) ↔ All (λ y. y ≢ x) xs
includes-All [] x = (λ h. tt, λ h. refl)
includes-All (y ∷ xs) x = ground (arith, eq_iff y x, includes-All xs x)

is_text_iff : (t : String) (o : Option String) → (is_text t o ≡ true) ↔ (o ≡ some t)
is_text_iff t none = (λ h. cc, λ h. cc)
is_text_iff t (some s) = (λ h. ground (arith, eq_iff s t), λ h. ground (arith, eq_iff s t, h))

is_given_iff {ℓ} : {A : Type ℓ} (o : Option A) → (is_given o ≡ true) ↔ (o ≢ none)
is_given_iff none = (λ h. cc, λ h. absurd (h refl))
is_given_iff (some s) = (λ h e. cc, λ h. refl)

ttl_ok_iff : (q : Quantity) → (ttl_ok q ≡ true) ↔ ((n : ℕ) × (q ≡ thousandths n) × (0 < n))
ttl_ok_iff (thousandths n) = (λ h. (n, refl, ground arith), λ h. ground (arith, h.1, h.2))
ttl_ok_iff negative = (λ h. cc, λ h. cc (h.1))
ttl_ok_iff not_finite = (λ h. cc, λ h. cc (h.1))
ttl_ok_iff not_a_number = (λ h. cc, λ h. cc (h.1))

hops_ok-thousands : (h : ℕ) → hops_ok (thousandths (h * 1000)) ≡ true
hops_ok-thousands h = ground arith

hops_ok_iff : (q : Quantity) → (hops_ok q ≡ true) ↔ ((h : ℕ) × (q ≡ thousandths (h * 1000)))
hops_ok_iff (thousandths n) = (
  λ h. (n / 1000, ap thousandths (ground arith)),
  λ h. subst (λ q. hops_ok q ≡ true) (sym (h.1)) (hops_ok-thousands (h.0)),
)
hops_ok_iff negative = (λ h. cc, λ h. cc (h.1))
hops_ok_iff not_finite = (λ h. cc, λ h. cc (h.1))
hops_ok_iff not_a_number = (λ h. cc, λ h. cc (h.1))

path_ok_iff : (p : Texts) → (path_ok p ≡ true) ↔ ((xs : List String) × (p ≡ texts xs))
path_ok_iff (texts xs) = (λ h. (xs, refl), λ h. refl)
path_ok_iff other = (λ h. cc, λ h. cc (h.1))

has_type_iff :
    (o : Option String)
    → (has_type o ≡ true) ↔ ((t : String) × (o ≡ some t) × (includes message_types t ≡ true))
unfolding has_type
has_type_iff none = (λ h. cc, λ h. cc (h.1))
has_type_iff (some s) = (λ h. (s, refl, h), λ h. subst (λ o. has_type o ≡ true) (sym (h.1)) (h.2))

pub parsed_iff :
    (parse_date : String → Option ℕ) (o : Option String) (time : ℕ)
    → (parsed parse_date o ≡ some time) ↔ ((t : String) × (o ≡ some t) × (parse_date t ≡ some time))
unfolding parsed
parsed_iff f none time = (λ h. cc, λ h. cc (h.1))
parsed_iff f (some t) time =
    (λ h. (t, refl, h), λ h. subst (λ o. parsed f o ≡ some time) (sym (h.1)) (h.2))

both :
    {P Q : Type 0} (a b : Bool) → ((a ≡ true) ↔ P) → ((b ≡ true) ↔ Q) → ((a && b) ≡ true) ↔ (P × Q)
both true b f g = (λ h. (f.0 refl, g.0 h), λ h. g.1 (h.1))
both false b f g = (λ h. cc, λ h. f.1 (h.0))

-- One check of the chain.
step_iff :
    {P Q : Type 0} (v : Verdict) (a : Bool) (c : Code) (r : Verdict)
    → refused c ≢ v
    → ((a ≡ true) ↔ P)
    → ((r ≡ v) ↔ Q)
    → (((if not a then refused c else r) ≡ v) ↔ (P × Q))
step_iff v true c r n f g = (λ h. (f.0 refl, g.0 h), λ h. g.1 (h.1))
step_iff v false c r n f g =
    (λ h. absurd (n h), λ h. absurd (n (ap (λ b. if not b then refused c else v) (f.1 (h.0)))))

abbrev pub HasRequired : Envelope → Type 0
HasRequired e =
    HasText e.message_id
    × (HasText e.idempotency_key
        × (HasText e.timestamp
            × (HasText (source_gateway e.source)
                × ((e.destination ≢ none) × HasText e.message_type))))

has_required_iff : (e : Envelope) → (has_required e ≡ true) ↔ HasRequired e
unfolding has_required
has_required_iff e = both (is_present e.message_id) _ (is_present_iff e.message_id) (
    both (is_present e.idempotency_key) _ (is_present_iff e.idempotency_key) (
      both (is_present e.timestamp) _ (is_present_iff e.timestamp) (
        both (is_present (source_gateway e.source)) _ (is_present_iff (source_gateway e.source)) (
          both (is_given e.destination) _ (is_given_iff e.destination)
            (is_present_iff e.message_type)))))

abbrev pub HasType : Option String → Type 0
HasType o = (t : String) × (o ≡ some t) × (includes message_types t ≡ true)

abbrev pub IsPositive : Quantity → Type 0
IsPositive q = (n : ℕ) × (q ≡ thousandths n) × (0 < n)

abbrev pub IsWhole : Quantity → Type 0
IsWhole q = (h : ℕ) × (q ≡ thousandths (h * 1000))

abbrev pub IsArray : Texts → Type 0
IsArray p = (xs : List String) × (p ≡ texts xs)

-- No text of the path is the gateway's.
abbrev pub IsOutside : String → Texts → Type 0
IsOutside id (texts xs) = All (λ y. y ≢ id) xs
IsOutside id other = Unit

abbrev pub IsBelow : Quantity → ℕ → Type 0
IsBelow (thousandths n) limit = n < limit * 1000
IsBelow _ limit = Unit

-- What the checks after the parse of the timestamp ask for, up to the one of the payload.
abbrev pub IsTimely : ℕ → ℕ → Envelope → Config → Type 0 → Type 0
IsTimely time now e config Last =
    (now < time + ttl_ms e.ttl_seconds)
    × (IsOutside config.gateway_id e.route_path × (IsBelow e.hop_count config.max_hops × Last))

-- What the checks before the one of the payload ask for, and `Last`.
abbrev pub IsWelcome : (String → Option ℕ) → ℕ → Envelope → Config → Type 0 → Type 0
IsWelcome parse_date now e config Last =
    (e.protocol_version ≡ some "a2a/v1")
    × (HasRequired e
        × (HasType e.message_type
            × (IsPositive e.ttl_seconds
                × (IsWhole e.hop_count
                    × (IsArray e.route_path
                        × ((time : ℕ) × (parsed parse_date e.timestamp ≡ some time)
                            × IsTimely time now e config Last))))))

step_not_iff :
    {P Q : Type 0} (v : Verdict) (a : Bool) (c : Code) (r : Verdict)
    → refused c ≢ v
    → ((a ≡ false) ↔ P)
    → ((r ≡ v) ↔ Q)
    → (((if a then refused c else r) ≡ v) ↔ (P × Q))
step_not_iff v false c r n f g = (λ h. (f.0 refl, g.0 h), λ h. g.1 (h.1))
step_not_iff v true c r n f g =
    (λ h. absurd (n h), λ h. absurd (n (ap (λ b. if b then refused c else v) (f.1 (h.0)))))

in_path_iff : (id : String) (p : Texts) → (in_path id p ≡ false) ↔ IsOutside id p
in_path_iff id (texts xs) = includes-All xs id
in_path_iff id other = (λ h. tt, λ h. refl)

over_hops_iff : (q : Quantity) (limit : ℕ) → (over_hops q limit ≡ false) ↔ IsBelow q limit
over_hops_iff (thousandths n) limit = ground arith
over_hops_iff negative limit = (λ h. tt, λ h. refl)
over_hops_iff not_finite limit = (λ h. tt, λ h. refl)
over_hops_iff not_a_number limit = (λ h. tt, λ h. refl)

validate_at_iff :
    {Q : Type 0} (f : String → Option ℕ) (v : Verdict) (time now : ℕ) (e : Envelope)
    (config : Config)
    → ((c : Code) → refused c ≢ v)
    → ((size_verdict e.payload_bytes config.max_payload_bytes ≡ v) ↔ Q)
    → ((validate_at f time now e config ≡ v) ↔ IsTimely time now e config Q)
unfolding validate_at
validate_at_iff f v time now e config n last =
    step_not_iff v (leb (time + ttl_ms e.ttl_seconds) now) expired _ (n expired) (ground arith) (
      step_not_iff v (in_path config.gateway_id e.route_path) loop_detected _ (n loop_detected)
        (in_path_iff config.gateway_id e.route_path)
        (step_not_iff v (over_hops e.hop_count config.max_hops) hop_limit _ (n hop_limit)
          (over_hops_iff e.hop_count config.max_hops) last))

option_iff :
    {P : ℕ → Type 0} (v : Verdict) (k : ℕ → Verdict) (o : Option ℕ)
    → (refused missing_field ≢ v)
    → ((time : ℕ) → (k time ≡ v) ↔ P time)
    → (((elim o [ none ↦ refused missing_field | some t ↦ k t ]) ≡ v)
        ↔ ((time : ℕ) × (o ≡ some time) × P time))
option_iff {P} v k none n f = (λ h. absurd (n h), λ h. cc (h.1))
option_iff {P} v k (some t) n f =
    (λ h. (t, refl, (f t).0 h), λ h. (f t).1 (subst P (cc (h.1)) (h.2)))

pub validate_iff :
    {Q : Type 0} (f : String → Option ℕ) (v : Verdict) (now : ℕ) (e : Envelope) (config : Config)
    → ((c : Code) → refused c ≢ v)
    → ((size_verdict e.payload_bytes config.max_payload_bytes ≡ v) ↔ Q)
    → ((validate_envelope f now e config ≡ v) ↔ IsWelcome f now e config Q)
unfolding validate_envelope
validate_iff f v now e config n last =
    step_iff v (is_text "a2a/v1" e.protocol_version) invalid_version _ (n invalid_version)
      (is_text_iff "a2a/v1" e.protocol_version)
      (step_iff v (has_required e) missing_field _ (n missing_field) (has_required_iff e) (
        step_iff v (has_type e.message_type) invalid_type _ (n invalid_type)
          (has_type_iff e.message_type)
          (step_iff v (ttl_ok e.ttl_seconds) missing_field _ (n missing_field)
            (ttl_ok_iff e.ttl_seconds)
            (step_iff v (hops_ok e.hop_count) missing_field _ (n missing_field)
              (hops_ok_iff e.hop_count)
              (step_iff v (path_ok e.route_path) missing_field _ (n missing_field)
                (path_ok_iff e.route_path)
                (option_iff v (λ time. validate_at f time now e config) (parsed f e.timestamp)
                  (n missing_field) (λ time. validate_at_iff f v time now e config n last)))))))
