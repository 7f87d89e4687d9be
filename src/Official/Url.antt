-- ===== src/Official/Url.antt =====
-- `buildActionUrl` of src/official-agent-call.ts. The URL class, `JSON.stringify` and the length in UTF-8
-- are arguments.
use claw_crony.Base.{
  ℕ, Bool, false, not, ◌&&◌, ◌||◌, Option, none, some, [], ◌∷◌, ◌++◌, ltb, leb, ◌==◌, if◌then◌else◌,
  length,
}
use claw_crony.Base.Text.{Text, codes, same}
use claw_crony.Base.Json.{Json, Items, Fields, null, arr, obj, nil, cons, end, field}
use claw_crony.FileSecurity.Uri.{
  Url, Platform, Verdict, Reason, passed, rejected, validate_uri_scheme_and_ip,
}
use claw_crony.Hub.Values.{string_of}
use claw_crony.Official.Action.{is_letter}

-- Assignments to the parts of a URL object, its search parameters, and the functions on texts.
pub record Web : Type 0 where
  pub platform : Platform
  pub set_pathname : Text → Url → Url
  pub clear_search : Url → Url
  pub append_param : Text → Text → Url → Url
  pub set_param : Text → Text → Url → Url
  pub stringify : Json → Text
  pub byte_length : Text → ℕ

pub data UrlError : Type 0 where
  absolute_path : UrlError
  invalid_url : UrlError
  not_https : UrlError
  has_credentials : UrlError
  blocked : Reason → UrlError

pub data Built : Type 0 where
  built : Text → Built
  thrown : UrlError → Built

abbrev pub is_scheme_code : ℕ → Bool
is_scheme_code c =
    is_letter c || (leb 48 c && leb c 57) || (c == b'+') || (c == b'.') || (c == b'-')

unfoldable pub scheme_goes_on : Text → Bool
scheme_goes_on [] = false
scheme_goes_on (c ∷ t) = (c == b':') || (is_scheme_code c && scheme_goes_on t)

-- `/^[A-Za-z][A-Za-z0-9+.-]*:/.test(path)`
unfoldable pub is_absolute : Text → Bool
unfolding scheme_goes_on
is_absolute [] = false
is_absolute (c ∷ t) = is_letter c && scheme_goes_on t

-- `replace(/^\/+/, "")`
unfoldable pub strip_first_slashes : Text → Text
strip_first_slashes [] = []
strip_first_slashes (c ∷ t) = if c == b'/' then strip_first_slashes t else c ∷ t

abbrev pub keep_unless_slash : ℕ → Text → Text
keep_unless_slash c [] = if c == b'/' then [] else c ∷ []
keep_unless_slash c (d ∷ t) = c ∷ d ∷ t

-- `replace(/\/+$/, "")`
unfoldable pub strip_last_slashes : Text → Text
strip_last_slashes [] = []
strip_last_slashes (c ∷ t) = keep_unless_slash c (strip_last_slashes t)

-- `[basePath, relativePath].filter(Boolean).join("/")`
unfoldable pub join_paths : Text → Text → Text
join_paths [] [] = []
join_paths [] (d ∷ path) = d ∷ path
join_paths (c ∷ base) [] = c ∷ base
join_paths (c ∷ base) (d ∷ path) = (c ∷ base) ++ (b'/' ∷ d ∷ path)

module _ (web : Web) where
  unfoldable pub append_all : Text → Items → Url → Url
  unfolding string_of
  append_all key nil url = url
  append_all key (cons null items) url = append_all key items url
  append_all key (cons v items) url = append_all key items (web.append_param key (string_of v) url)

  unfoldable pub add_entry : Text → Json → Url → Url
  unfolding string_of append_all
  add_entry key null url = url
  add_entry key (arr items) url = append_all key items url
  add_entry key (obj fs) url = web.set_param key (web.stringify (obj fs)) url
  add_entry key v url = web.set_param key (string_of v) url

  unfoldable pub add_fields : Fields → Url → Url
  unfolding add_entry
  add_fields end url = url
  add_fields (field key v fs) url = add_fields fs (add_entry key v url)

  unfoldable pub add_query : Option Fields → Url → Url
  unfolding add_fields
  add_query none url = url
  add_query (some query) url = add_fields query url

  -- The path and the query on a URL of the endpoint.
  unfoldable pub extend_url : Url → Text → Option Fields → Url → Url
  unfolding strip_first_slashes strip_last_slashes join_paths add_query
  extend_url base path query url = add_query query (
      web.clear_search (
        web.set_pathname (join_paths (strip_last_slashes base.pathname) (strip_first_slashes path))
          url))

  unfoldable pub build_from : Url → Text → Option Fields → Verdict → Built
  unfolding extend_url
  build_from base path query (rejected reason) = thrown (blocked reason)
  build_from base path query passed = elim (web.platform.parse_url (web.platform.to_string base)) [
    | none ↦ thrown invalid_url
    | some url ↦ built (web.platform.to_string (extend_url base path query url))
  ]

  unfoldable pub build_on : Url → Text → Option Fields → Built
  unfolding same build_from validate_uri_scheme_and_ip
  build_on base path query =
      if not (same base.protocol (codes "https:"))
      then thrown not_https
      else if ltb 0 (length base.username) || ltb 0 (length base.password)
      then thrown has_credentials
      else build_from base path query
          (validate_uri_scheme_and_ip web.platform (web.platform.to_string base))

  unfoldable pub build_on_parsed : Option Url → Text → Option Fields → Built
  unfolding build_on
  build_on_parsed none path query = thrown invalid_url
  build_on_parsed (some base) path query = build_on base path query

  unfoldable pub build_action_url : Text → Text → Option Fields → Built
  unfolding is_absolute build_on_parsed
  build_action_url base_url path query =
      if is_absolute path
      then thrown absolute_path
      else build_on_parsed (web.platform.parse_url base_url) path query
