-- ===== src/Official/Tests.antt =====
-- Runs of src/official-agent-call.ts with a small platform.
use claw_crony.Base.{◌≡◌, refl, sym, ap, ◌∙◌, ◌↔◌, true, false, none, some, [], ◌∷◌, length}
use claw_crony.Base.Text.{
  Text, codes, same, starts_with, ends_with, includes, lower, trim_start, trim,
}
use claw_crony.Base.Json.{Json, Fields, get, str, arr, obj, nil, cons, end, field}
use claw_crony.FileSecurity.Uri.{
  check_parsed, is_web, strip_brackets, Url, Platform, validate_uri_scheme_and_ip,
}
use claw_crony.FileSecurity.Numerals.{decimal_of}
use claw_crony.Executor.Fragments.{as_string, non_empty}
use claw_crony.Hub.Agents.{Endpoint, Descriptor, HubAgent}
use claw_crony.Official.Findings.{
  Patterns, finds_phone, finds_payment, finds_order, finds_address, scan_text, is_named,
  finds_secret, finds_internal, scan_key, key_path, item_path, scan_value, finding_key,
  unique_after, distinct_after, normal_entries, detect_sensitive,
}
use claw_crony.Official.Clean.{IsClean, detect_sensitive_iff}
use claw_crony.Official.Action.{
  Action, upper, lower_value, letters_of, match_endpoint, with_endpoint, complete, normalize_action,
  first_action, manifest_entry, find_action,
}
use claw_crony.Official.Url.{
  Web, scheme_goes_on, is_absolute, strip_first_slashes, strip_last_slashes, join_paths, add_query,
  extend_url, build_from, build_on, build_action_url, absolute_path, built, thrown,
}
use claw_crony.Official.Prepare.{Input, request_for, prepare_official_agent_action_call, ready}
use claw_crony.Official.Ready.{IsAllowed, prepare_official_agent_action_call-IsAllowed}
use claw_crony.Official.Hosts.{
  IsSameOrigin, KeepsOrigin, same_origin_refl, GoesTo, build_action_url-GoesTo,
}
use claw_crony.Official.Course.{Client, CallInput, Response, World, resolved, failed}

-- The tests look for a word.
abbrev patterns : Patterns
patterns = record {
  phone = λ t. includes t (codes "139");
  payment = λ t. includes t (codes "alipay");
  order_id = λ t. includes t (codes "order_id");
  address = λ t. false;
  sensitive_key = λ t. includes t (codes "token");
  internal_payload = λ t. false;
}

abbrev url_of : Text → Url
url_of path = record {
  protocol = codes "https:";
  username = [];
  password = [];
  hostname = codes "hub.example";
  port = [];
  pathname = path;
  search = [];
  hash = [];
}

-- Every text is the path of a URL of one host; it prints as its path.
abbrev platform : Platform
platform = record {
  parse_url = λ t. some (url_of t);
  to_string = λ u. u.pathname;
  net = record { is_ipv4 = λ a. false; is_ipv6 = λ a. false };
}

abbrev set_pathname : Text → Url → Url
set_pathname p u = record {
  protocol = u.protocol;
  username = u.username;
  password = u.password;
  hostname = u.hostname;
  port = u.port;
  pathname = p;
  search = u.search;
  hash = u.hash;
}

abbrev web : Web
web = record {
  platform = platform;
  set_pathname = set_pathname;
  clear_search = λ u. u;
  append_param = λ k v u. u;
  set_param = λ k v u. u;
  stringify = λ v. codes "{}";
  byte_length = length;
}

abbrev action : Json
action = obj (
    field (codes "name") (str (codes "Quote")) (
      field (codes "riskLevel") (str (codes "Low"))
        (field (codes "endpoint") (str (codes "get  /quote")) end)))

abbrev manifest : Fields
manifest = field (codes "actions") (arr (cons action nil)) end

abbrev endpoint : Endpoint
endpoint = record {
  protocol = codes "custom-http";
  transport = codes "https";
  url = codes "/v1/";
  auth = none;
  metadata = none;
}

abbrev descriptor : Descriptor
descriptor = record { signing = none; encryption = none; endpoints = endpoint ∷ []; protocols = [] }

abbrev agent : HubAgent
agent = record {
  id = 3;
  name = codes "Shop";
  description = none;
  skills = [];
  status = none;
  client_id = none;
  public_key = none;
  key_version = none;
  signing_public_key = none;
  signing_key_version = none;
  signing_algorithm = none;
  signing_key_status = none;
  connection_descriptor = some descriptor;
  connection_protocols = [];
  official = true;
  verified = true;
  operator_name = none;
  source_repo_url = none;
  documentation_url = none;
  privacy_policy_url = none;
  risk_boundary = none;
  agent_type = none;
  domain = none;
  model_provider = none;
  model_name = none;
  model_display_name = none;
  model_usage = none;
  data_retention = none;
  capability_manifest = some manifest;
  presence_status = none;
  last_seen_at = none;
  client_version = none;
}

abbrev input : Input
input = record {
  action_name = codes " quote ";
  body = none;
  query = some (field (codes "city") (str (codes "x")) end);
}

abbrev declared : Action
declared = record {
  name = codes "Quote";
  risk_level = codes "low";
  method = codes "GET";
  path = codes "/quote";
}

endpoint_parsed : match_endpoint (codes "get  /quote") ≡ some (codes "get", codes "/quote")
unfolding match_endpoint letters_of trim_start
endpoint_parsed = refl

action_found : find_action agent (codes "quote") ≡ some declared
unfolding find_action first_action normalize_action manifest_entry get same lower trim upper
    lower_value with_endpoint match_endpoint letters_of complete as_string non_empty
action_found = refl

joined : build_action_url web (codes "/v1/") (codes "/quote") none ≡ built (codes "/v1/quote")
unfolding build_action_url is_absolute build_on build_from extend_url add_query join_paths
    strip_last_slashes strip_first_slashes same validate_uri_scheme_and_ip check_parsed is_web
    strip_brackets lower starts_with ends_with
joined = refl

absolute_refused :
    build_action_url web (codes "/v1/") (codes "https://evil.example/") none ≡ thrown absolute_path
unfolding build_action_url is_absolute scheme_goes_on
absolute_refused = refl

abbrev card : Json
card = obj (field (codes "access_token") (arr (cons (str (codes "139")) nil)) end)

two_findings : length (detect_sensitive patterns [] card) ≡ 2
unfolding detect_sensitive unique_after finding_key normal_entries distinct_after scan_value
    scan_text scan_key finds_phone finds_payment finds_order finds_address finds_secret
    finds_internal is_named key_path item_path same includes starts_with lower trim decimal_of
two_findings = refl

detect_sensitive_iff_example :
    (detect_sensitive patterns (codes "order_id" ∷ []) card ≡ [])
    ↔ IsClean patterns (normal_entries (codes "order_id" ∷ [])) card
detect_sensitive_iff_example = detect_sensitive_iff patterns (codes "order_id" ∷ []) card

prepare_official_agent_action_call-IsAllowed_example :
    (prepare_official_agent_action_call web patterns agent input
      ≡ ready (request_for web patterns agent input declared (codes "/v1/quote")))
    ↔ ((a : Action) × (e : Endpoint) × (url : Text) × IsAllowed web patterns agent input a e url
        × (request_for web patterns agent input declared (codes "/v1/quote")
            ≡ request_for web patterns agent input a url))
prepare_official_agent_action_call-IsAllowed_example =
    prepare_official_agent_action_call-IsAllowed web patterns agent input
      (request_for web patterns agent input declared (codes "/v1/quote"))

web-KeepsOrigin : KeepsOrigin web
web-KeepsOrigin = record {
  pathname =
      λ p u. record { protocols = refl; usernames = refl; passwords = refl; hostnames = refl };
  search = λ u. same_origin_refl u;
  appended = λ k v u. same_origin_refl u;
  assigned = λ k v u. same_origin_refl u;
  parsed = parsed_origin;
}
  where
    parsed_origin :
        (t : Text) (u v : Url)
        → some (url_of t) ≡ some u
        → some (url_of u.pathname) ≡ some v
        → IsSameOrigin v u
    parsed_origin t u v b h =
        let first : url_of t ≡ u = cc in
        let second : url_of u.pathname ≡ v = cc in
        record {
          protocols = sym (ap (λ x. x.protocol) second) ∙ ap (λ x. x.protocol) first;
          usernames = sym (ap (λ x. x.username) second) ∙ ap (λ x. x.username) first;
          passwords = sym (ap (λ x. x.password) second) ∙ ap (λ x. x.password) first;
          hostnames = sym (ap (λ x. x.hostname) second) ∙ ap (λ x. x.hostname) first;
        }

build_action_url-GoesTo_example :
    (is_absolute (codes "/quote") ≡ false)
    × (base : Url) × (web.platform.parse_url (codes "/v1/") ≡ some base)
    × GoesTo web web-KeepsOrigin base (codes "/v1/quote")
build_action_url-GoesTo_example =
    build_action_url-GoesTo web web-KeepsOrigin (codes "/v1/") (codes "/quote") none
      (codes "/v1/quote") joined

abbrev answer_ok : Response
answer_ok = record { status = 200; content_type = codes "text/plain"; text = codes "12 EUR" }

abbrev world : World
world = record {
  web = web;
  patterns = patterns;
  parse = λ t. none;
  fetch = λ request. resolved answer_ok;
  log_url = λ t. t;
}

abbrev client : Client
client = record {
  agent_id = 1;
  get_agent = λ id. resolved agent;
  find_agent_by_client_id = λ id. resolved none;
  create_match = λ skills description prefer. failed [];
}

abbrev call : CallInput
call = record {
  agent_id = some 3;
  client_id = none;
  skills = [];
  description = none;
  prefer_official = none;
  input = input;
}
