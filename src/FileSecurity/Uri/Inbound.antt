-- ===== src/FileSecurity/Uri/Inbound.antt =====
-- src/file-security.ts: what `validateUriSchemeAndIp` lets through.
use claw_crony.Base.{
  ◌≤◌, ◌≡◌, refl, ◌↔◌, ◌⊎◌, inl, inr, Bool, true, false, not, ◌&&◌, some, arith, ◌==◌, Option-cases,
  length,
}
use claw_crony.Base.Text.{Text, lower, codes}
use claw_crony.FileSecurity.Address.{is_private_ip}
use claw_crony.FileSecurity.Uri.{
  Url, Platform, is_web, is_ip, strip_brackets, without_colon, check_parsed,
  validate_uri_scheme_and_ip, invalid_uri, blocked_scheme, no_hostname, blocked_private_ip, passed,
  rejected,
}
use claw_crony.FileSecurity.Uri.Outbound.{is_web_iff, guard-passed}

-- The URI parses to a URL with the scheme http or https and a host name, which is no private address.
pub record IsInbound (platform : Platform) (uri : Text) : Type 0 where
  pub url : Url
  pub is_url : platform.parse_url uri ≡ some url
  pub web : (lower url.protocol ≡ codes "http:") ⊎ (lower url.protocol ≡ codes "https:")
  pub named : 1 ≤ length url.hostname
  pub no_private :
      is_ip platform.net (strip_brackets url.hostname) ≡ true
      → is_private_ip platform.net (strip_brackets url.hostname) ≡ false

check_parsed-IsInbound :
    (platform : Platform) (uri : Text) (url : Url)
    → platform.parse_url uri ≡ some url
    → check_parsed platform.net url ≡ passed
    → IsInbound platform uri
unfolding check_parsed
check_parsed-IsInbound platform uri url p e =
    let (w, e1) =
      guard-passed (not (is_web (lower url.protocol)))
        (blocked_scheme (without_colon (lower url.protocol))) _ e in
    let (n, e2) = guard-passed (length url.hostname == 0) no_hostname _ e1 in
    let (l, g) =
      guard-passed
        (is_ip platform.net (strip_brackets url.hostname)
          && is_private_ip platform.net (strip_brackets url.hostname))
        (blocked_private_ip (strip_brackets url.hostname)) _ e2 in
    record {
      url = url;
      is_url = p;
      web = (is_web_iff (lower url.protocol)).0 (ground arith);
      named = ground arith;
      no_private = λ i. both_false _ _ l i;
    }
  where
    both_false : (a b : Bool) → (a && b) ≡ false → a ≡ true → b ≡ false
    both_false true b h i = h
    both_false false b h i = absurd (cc)

validate-IsInbound :
    (platform : Platform) (uri : Text)
    → validate_uri_scheme_and_ip platform uri ≡ passed
    → IsInbound platform uri
unfolding validate_uri_scheme_and_ip
validate-IsInbound platform uri e = elim (Option-cases (platform.parse_url uri)) [
  | inl n ↦
      absurd (let k : rejected invalid_uri ≡ passed = rw (validate_uri_scheme_and_ip, n) at e in cc)
  | inr (url, p) ↦
      check_parsed-IsInbound platform uri url p (rw (validate_uri_scheme_and_ip, p) at e)
]

IsInbound-validate :
    (platform : Platform) (uri : Text)
    → IsInbound platform uri
    → validate_uri_scheme_and_ip platform uri ≡ passed
unfolding validate_uri_scheme_and_ip check_parsed
IsInbound-validate platform uri h =
    let host = strip_brackets h.url.hostname in
    let nonempty : (length h.url.hostname == 0) ≡ false = (let n = h.named in ground arith) in
    let public : (is_ip platform.net host && is_private_ip platform.net host) ≡ false =
      together _ _ h.no_private in
    rw
      (
        validate_uri_scheme_and_ip,
        h.is_url,
        (is_web_iff (lower h.url.protocol)).1 h.web,
        nonempty,
        public,
      )
      refl
  where
    together : (a b : Bool) → (a ≡ true → b ≡ false) → (a && b) ≡ false
    together true b h = h refl
    together false b h = refl

pub validate_uri_scheme_and_ip_iff :
    (platform : Platform) (uri : Text)
    → (validate_uri_scheme_and_ip platform uri ≡ passed) ↔ IsInbound platform uri
validate_uri_scheme_and_ip_iff platform uri =
    (validate-IsInbound platform uri, IsInbound-validate platform uri)
