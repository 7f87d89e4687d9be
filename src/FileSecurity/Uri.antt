-- ===== src/FileSecurity/Uri.antt =====
-- `validateUri`, `validateUriSchemeAndIp` and `matchHostname` of src/file-security.ts.
use claw_crony.Base.{
  ℕ, zero, suc, ◌+◌, ◌-◌, ◌*◌, ◌/◌, ◌%◌, ◌^◌, ◌≤◌, ◌<◌, min, max, String, ◌≡◌, refl, sym, ap, ◌∙◌,
  subst, ◌≡⟨◌⟩◌, ◌∎, ◌≢◌, ◌↔◌, ◌⊎◌, inl, inr, Bool, true, false, not, ◌&&◌, ◌||◌, Option, none,
  some, List, [], ◌∷◌, ◌++◌, map, append-nil, append_assoc, arith, eq_iff, str_eq, ltb, leb, ◌==◌,
  if◌then◌else◌, ltb→lt, leb→le, lt→ltb, le→leb, ==_iff, Bool-cases, Option-cases, ◌>>=◌, length,
  length-append, take, drop, length-take, filter, length-filter-le, any, find?, All, All-append,
  All-filter, All-take, All-map_imp, List-cases, bit, count, count-append, count-filter_le,
}
use claw_crony.Base.Text.{
  Text, codes, same, same_iff, starts_with, starts_with_append, starts_with_split, ends_with,
  ends_with_self, ends_with_append, ends_with_split, includes, lower_code, lower, lower-append,
  lower_idem, length-lower, is_space, trim_start, keep_unless_blank, trim_end, trim, cons_head,
  split, Free, split-append, split-Free, join, split-join, clip, length-clip_le,
}
use claw_crony.FileSecurity.Address.{Net, is_private_ip}
pub mod Hosts
pub mod Outbound
pub mod Inbound
pub mod Safe

-- What the URL parser gives.
pub record Url : Type 0 where
  pub protocol : Text
  pub username : Text
  pub password : Text
  pub hostname : Text
  pub port : Text
  pub pathname : Text
  pub search : Text
  pub hash : Text

-- What the code takes from its platform: `new URL`, with `none` where it throws, `URL.toString`,
-- and the tests of `node:net`.
pub record Platform : Type 0 where
  pub parse_url : Text → Option Url
  pub to_string : Url → Text
  pub net : Net

-- The name service gives an address, or fails with a message.
pub data Answer : Type 0 where
  found : Text → Answer
  failed : Text → Answer

-- The reasons of a rejection, with the parts of their texts.
pub data Reason : Type 0 where
  invalid_uri : Reason
  blocked_scheme : Text → Reason
  no_hostname : Reason
  not_in_allowlist : Text → Reason
  blocked_private_ip : Text → Reason
  resolves_to_private_ip : Text → Text → Reason
  resolution_failed : Text → Text → Reason
  too_large : ℕ → ℕ → Reason

-- `FileSecurityResult`
pub data Verdict : Type 0 where
  passed : Verdict
  rejected : Reason → Verdict

-- `scheme.replace(":", "")`
unfoldable pub without_colon : Text → Text
without_colon [] = []
without_colon (c ∷ a) = if c == b':' then a else c ∷ without_colon a

-- `hostname.slice(1, -1)` between brackets
unfoldable pub strip_brackets : Text → Text
unfolding starts_with ends_with
strip_brackets h =
    if starts_with h (codes "[") && ends_with h (codes "]")
    then take (length h - 2) (drop 1 h)
    else h

unfoldable pub match_hostname : Text → Text → Bool
unfolding lower starts_with ends_with same
match_hostname hostname pattern =
    let h = lower hostname in
    let p = lower pattern in
    if starts_with p (codes "*.") then ends_with h (drop 1 p) || same h (drop 2 p) else same h p

unfoldable pub is_web : Text → Bool
unfolding same
is_web scheme = same scheme (codes "http:") || same scheme (codes "https:")

-- `net.isIP(hostname)` is not 0.
abbrev pub is_ip : Net → Text → Bool
is_ip net h = net.is_ipv4 h || net.is_ipv6 h

unfoldable pub check_parsed : Net → Url → Verdict
unfolding lower is_web without_colon strip_brackets is_private_ip
check_parsed net url =
    let scheme = lower url.protocol in
    let hostname = strip_brackets url.hostname in
    if not (is_web scheme)
    then rejected (blocked_scheme (without_colon scheme))
    else if length url.hostname == 0
    then rejected no_hostname
    else if is_ip net hostname && is_private_ip net hostname
    then rejected (blocked_private_ip hostname)
    else passed

-- `validateUriSchemeAndIp`; `null` is `passed`.
unfoldable pub validate_uri_scheme_and_ip : Platform → Text → Verdict
unfolding check_parsed
validate_uri_scheme_and_ip platform uri = elim (platform.parse_url uri) [
  | none ↦ rejected invalid_uri
  | some url ↦ check_parsed platform.net url
]

-- `config.fileUriAllowlist`
unfoldable pub is_listed : List Text → Text → Bool
unfolding match_hostname
is_listed allowlist hostname =
    if ltb 0 (length allowlist)
    then any (λ pattern. match_hostname hostname pattern) allowlist
    else true

unfoldable pub check_answer : Net → Text → Answer → Verdict
unfolding is_private_ip
check_answer net hostname (found ip) =
    if is_private_ip net ip then rejected (resolves_to_private_ip hostname ip) else passed
check_answer net hostname (failed message) = rejected (resolution_failed hostname message)

unfoldable pub check_host : Net → List Text → (Text → Answer) → Text → Verdict
unfolding is_listed is_private_ip check_answer
check_host net allowlist resolve hostname =
    if not (is_listed allowlist hostname)
    then rejected (not_in_allowlist hostname)
    else if is_ip net hostname
    then if is_private_ip net hostname then rejected (blocked_private_ip hostname) else passed
    else check_answer net hostname (resolve hostname)

unfoldable pub check_outbound : Net → List Text → (Text → Answer) → Url → Verdict
unfolding lower is_web without_colon strip_brackets check_host
check_outbound net allowlist resolve url =
    let scheme = lower url.protocol in
    if not (is_web scheme)
    then rejected (blocked_scheme (without_colon scheme))
    else if length url.hostname == 0
    then rejected no_hostname
    else check_host net allowlist resolve (strip_brackets url.hostname)

unfoldable pub validate_uri : Platform → List Text → (Text → Answer) → Text → Verdict
unfolding check_outbound
validate_uri platform allowlist resolve uri = elim (platform.parse_url uri) [
  | none ↦ rejected invalid_uri
  | some url ↦ check_outbound platform.net allowlist resolve url
]
