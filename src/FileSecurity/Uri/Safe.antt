-- ===== src/FileSecurity/Uri/Safe.antt =====
-- src/file-security.ts: what `validateUri` lets through, and how the inbound check compares with it.
use claw_crony.Base.{
  ◌≡◌, refl, sym, subst, ◌↔◌, ◌⊎◌, inl, inr, true, false, ◌&&◌, none, some, List, [], arith, ◌==◌,
  if◌then◌else◌, Bool-cases, Option-cases, length,
}
use claw_crony.Base.Text.{Text, lower}
use claw_crony.FileSecurity.Address.{Net, is_private_ip}
use claw_crony.FileSecurity.Uri.{
  Url, Platform, Answer, strip_brackets, is_ip, check_parsed, validate_uri_scheme_and_ip, is_listed,
  check_host, check_outbound, validate_uri, invalid_uri, blocked_private_ip, passed, rejected,
}
use claw_crony.FileSecurity.Uri.Outbound.{
  is_web_iff, IsPublic, IsSafe, check_outbound-IsSafe, IsSafe-check_outbound,
}

-- A URI passes the outbound check exactly when it parses to a URL with the scheme http or https and a host name that
-- the allowlist, where there is one, names or covers by a pattern `*.domain`, and the address that the host stands for, a literal or the
-- answer of the name service, is not private, so that an IPv4 address lies in none of the private blocks.
pub validate_uri-IsSafe :
    (platform : Platform) (allowlist : List Text) (resolve : Text → Answer) (uri : Text)
    → (validate_uri platform allowlist resolve uri ≡ passed) ↔ (
        (url : Url) × (platform.parse_url uri ≡ some url)
        × IsSafe platform.net allowlist resolve url)
unfolding validate_uri
validate_uri-IsSafe platform allowlist resolve uri = (
  λ e. passed_parts (Option-cases (platform.parse_url uri)) e,
  λ (url, p, safe).
      rw (validate_uri, p) (IsSafe-check_outbound platform.net allowlist resolve url safe),
)
  where
    passed_parts :
        ((platform.parse_url uri ≡ none) ⊎ ((url : Url) × (platform.parse_url uri ≡ some url)))
        → validate_uri platform allowlist resolve uri ≡ passed
        → (url : Url) × (platform.parse_url uri ≡ some url)
          × IsSafe platform.net allowlist resolve url
    passed_parts (inl n) e =
        absurd (let k : rejected invalid_uri ≡ passed = rw (validate_uri, n) at e in cc)
    passed_parts (inr (url, p)) e = (
      url,
      p,
      check_outbound-IsSafe platform.net allowlist resolve url (rw (validate_uri, p) at e),
    )

check_host-literal :
    (net : Net) (resolve : Text → Answer) (h : Text)
    → is_ip net h ≡ true
    → check_host net [] resolve h
      ≡ (if is_ip net h && is_private_ip net h then rejected (blocked_private_ip h) else passed)
unfolding check_host is_listed
check_host-literal net resolve h i = rw i refl

literal-public :
    (net : Net) (resolve : Text → Answer) (h : Text)
    → IsPublic net resolve h
    → (is_ip net h && is_private_ip net h) ≡ false
literal-public net resolve h (ip, c, p, _) = elim (Bool-cases (is_ip net h)) [
  | inl i ↦
      let same_ip : h ≡ ip = rw i at c in
      rw i (subst (λ x. is_private_ip net x ≡ false) (sym same_ip) p)
  | inr i ↦ rw i refl
]

IsSafe-check_parsed :
    (net : Net) (allowlist : List Text) (resolve : Text → Answer) (url : Url)
    → IsSafe net allowlist resolve url
    → check_parsed net url ≡ passed
unfolding check_parsed
IsSafe-check_parsed net allowlist resolve url safe =
    let nonempty : (length url.hostname == 0) ≡ false = (let n = safe.named in ground arith) in
    rw
      (
        (is_web_iff (lower url.protocol)).1 safe.web,
        nonempty,
        literal-public net resolve (strip_brackets url.hostname) safe.goes_out,
      )
      refl

-- Whatever passes the outbound check, with any allowlist and any name service, passes the inbound one.
pub validate_uri-inbound :
    (platform : Platform) (allowlist : List Text) (resolve : Text → Answer) (uri : Text)
    → validate_uri platform allowlist resolve uri ≡ passed
    → validate_uri_scheme_and_ip platform uri ≡ passed
unfolding validate_uri_scheme_and_ip
validate_uri-inbound platform allowlist resolve uri e =
    let (url, p, safe) = (validate_uri-IsSafe platform allowlist resolve uri).0 e in
    rw (validate_uri_scheme_and_ip, p) (IsSafe-check_parsed platform.net allowlist resolve url safe)

-- On a URI whose host is an address literal, with an empty allowlist, the outbound check and the
-- inbound one give the same verdict.
pub validate_uri-literal :
    (platform : Platform) (resolve : Text → Answer) (uri : Text) (url : Url)
    → platform.parse_url uri ≡ some url
    → is_ip platform.net (strip_brackets url.hostname) ≡ true
    → validate_uri platform [] resolve uri ≡ validate_uri_scheme_and_ip platform uri
unfolding validate_uri validate_uri_scheme_and_ip check_outbound check_parsed
validate_uri-literal platform resolve uri url p i =
    rw
      (
        validate_uri,
        validate_uri_scheme_and_ip,
        p,
        check_host-literal platform.net resolve (strip_brackets url.hostname) i,
      )
      refl
