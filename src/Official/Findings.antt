-- ===== src/Official/Findings.antt =====
-- `scanText`, `scanValue`, `uniqueFindings` and `detectSensitiveOfficialAgentInput` of
-- src/official-agent-call.ts. The regular expressions of the file are arguments.
use claw_crony.Base.{
  ℕ, ◌+◌, String, Bool, true, false, ◌&&◌, ◌||◌, List, [], ◌∷◌, ◌++◌, map, ltb, leb, ◌==◌,
  if◌then◌else◌, length, filter, any,
}
use claw_crony.Base.Text.{Text, codes, same, includes, lower, trim}
use claw_crony.Base.Json.{Json, Items, Fields, str, arr, obj, nil, cons, end, field}
use claw_crony.FileSecurity.Numerals.{decimal_of}

-- PHONE_RE, PAYMENT_RE, ORDER_ID_KEY_RE, ADDRESS_RE, SENSITIVE_KEY_RE, and the test for internal data.
pub record Patterns : Type 0 where
  pub phone : Text → Bool
  pub payment : Text → Bool
  pub order_id : Text → Bool
  pub address : Text → Bool
  pub sensitive_key : Text → Bool
  pub internal_payload : Text → Bool

-- `SensitiveFinding`
pub record Finding : Type 0 where
  pub kind : Text
  pub message : Text
  pub path : Text

abbrev pub finding : String → String → Text → Finding
finding kind message path = record { kind = codes kind; message = codes message; path = path }

-- A letter in lower case, a digit, or a CJK ideograph.
abbrev pub is_identifier : ℕ → Bool
is_identifier c = (leb 97 c && leb c 122) || (leb 48 c && leb c 57) || (leb 19968 c && leb c 40869)

unfoldable pub normalize_identifier : Text → Text
unfolding lower
normalize_identifier t = filter is_identifier (lower t)

-- `forbidden.has(entry)`
abbrev pub has : List Text → String → Bool
has forbidden entry = any (λ f. same f (codes entry)) forbidden

abbrev pub when : Bool → Finding → List Finding
when true f = f ∷ []
when false f = []

module _ (patterns : Patterns) (forbidden : List Text) where
  abbrev pub unrestricted : Bool
  unrestricted = length forbidden == 0

  unfoldable pub finds_phone : Text → Bool
  unfolding same
  finds_phone t =
      (unrestricted || has forbidden "full_phone_number" || has forbidden "rider_phone")
      && patterns.phone t

  unfoldable pub finds_payment : Text → Bool
  unfolding same
  finds_payment t =
      (unrestricted || has forbidden "payment_link" || has forbidden "payment_qr_code")
      && patterns.payment t

  unfoldable pub finds_order : Text → Bool
  unfolding same
  finds_order t = (has forbidden "order_id" || has forbidden "waybill_id") && patterns.order_id t

  unfoldable pub finds_address : Text → Bool
  unfolding same
  finds_address t = (unrestricted || has forbidden "full_address") && patterns.address t

  unfoldable pub scan_text : Text → Text → List Finding
  unfolding finds_phone finds_payment finds_order finds_address
  scan_text t path =
      when (finds_phone t)
        (finding "full_phone_number" "Text appears to contain a full phone number." path)
      ++ (when (finds_payment t)
            (finding "payment_info" "Text appears to contain payment or QR-code information." path)
          ++ (when (finds_order t)
                (finding "order_id" "Text appears to contain an order or waybill identifier." path)
              ++ when (finds_address t)
                  (finding "full_address" "Text appears to contain a detailed address." path)))

  -- The forbidden entry is in the key, both in their normal form.
  unfoldable pub is_named : Text → Text → Bool
  unfolding normalize_identifier includes
  is_named key entry =
      ltb 0 (length (normalize_identifier entry))
      && includes (normalize_identifier key) (normalize_identifier entry)

  abbrev pub named_findings : List Text → Text → Text → List Finding
  named_findings [] key path = []
  named_findings (entry ∷ entries) key path =
      when (is_named key entry) (record {
        kind = entry;
        message = codes "Input or output key matches an official agent forbidden field.";
        path = path;
      })
      ++ named_findings entries key path

  unfoldable pub finds_secret : Text → Bool
  unfolding same
  finds_secret key =
      (unrestricted || has forbidden "tencent_token" || has forbidden "token")
      && patterns.sensitive_key key

  unfoldable pub finds_internal : Text → Bool
  unfolding same
  finds_internal key = has forbidden "internal_api_payload" && patterns.internal_payload key

  unfoldable pub scan_key : Text → Text → List Finding
  unfolding is_named finds_secret finds_order finds_internal
  scan_key key path =
      named_findings forbidden key path
      ++ (when (finds_secret key) (
            finding "secret_key" "Input key appears to contain a token, cookie, session, or secret."
              path)
          ++ (when (finds_order key) (
                finding "order_id" "Input key appears to contain an order or waybill identifier."
                  path)
              ++ when (finds_internal key) (
                  finding "internal_api_payload"
                    "Input key appears to contain internal API payload data." path)))

  -- `path ? path + "." + key : key`
  unfoldable pub key_path : Text → Text → Text
  key_path [] key = key
  key_path (c ∷ path) key = (c ∷ path) ++ (b'.' ∷ key)

  unfoldable pub item_path : Text → ℕ → Text
  unfolding decimal_of
  item_path path i = path ++ (b'[' ∷ (decimal_of i ++ (b']' ∷ [])))

  unfoldable mutual
    unfolding scan_text scan_key key_path item_path

    pub scan_value : Text → Json → List Finding
    scan_value path (str t) = scan_text t path
    scan_value path (arr items) = scan_items path 0 items
    scan_value path (obj fs) = scan_fields path fs
    scan_value path v = []

    pub scan_items : Text → ℕ → Items → List Finding
    scan_items path i nil = []
    scan_items path i (cons v items) =
        scan_value (item_path path i) v ++ scan_items path (i + 1) items

    pub scan_fields : Text → Fields → List Finding
    scan_fields path end = []
    scan_fields path (field key v fs) =
        scan_key key (key_path path key)
        ++ (scan_value (key_path path key) v ++ scan_fields path fs)

-- `${finding.type}:${finding.path}:${finding.message}`
unfoldable pub finding_key : Finding → Text
finding_key f = f.kind ++ (b':' ∷ (f.path ++ (b':' ∷ f.message)))

-- The first of equal findings is kept; `seen` are those before.
unfoldable pub unique_after : List Finding → List Finding → List Finding
unfolding same finding_key
unique_after seen [] = []
unique_after seen (f ∷ fs) =
    let rest = unique_after (f ∷ seen) fs in
    let others = unique_after seen fs in
    if any (λ g. same (finding_key g) (finding_key f)) seen then others else f ∷ rest

-- `new Set(…)` keeps the first of equal entries; `seen` are those before.
unfoldable pub distinct_after : List Text → List Text → List Text
unfolding same
distinct_after seen [] = []
distinct_after seen (e ∷ es) =
    let rest = distinct_after (e ∷ seen) es in
    let others = distinct_after seen es in if any (λ g. same g e) seen then others else e ∷ rest

-- `entry.trim().toLowerCase()`, without the empty ones
unfoldable pub normal_entries : List Text → List Text
unfolding trim lower distinct_after
normal_entries entries =
    distinct_after [] (filter (λ e. ltb 0 (length e)) (map (λ e. lower (trim e)) entries))

unfoldable pub detect_sensitive : Patterns → List Text → Json → List Finding
unfolding unique_after normal_entries scan_value
detect_sensitive patterns entries v =
    unique_after [] (scan_value patterns (normal_entries entries) [] v)
