-- ===== src/FileSecurity/Tests.antt =====
-- Runs of src/file-security.ts with a small platform.
use claw_crony.Base.{
  ◌≤◌, ◌≡◌, refl, ◌↔◌, true, false, ◌||◌, Option, none, some, List, [], ◌∷◌, ◌++◌, map, arith,
  if◌then◌else◌, length, drop, All,
}
use claw_crony.Base.Integers.{negsuc}
use claw_crony.Base.Text.{Text, codes, same, starts_with, lower, Free, join}
use claw_crony.FileSecurity.Address.{pad, is_private_ipv6, Net, is_private_ip}
use claw_crony.FileSecurity.Address.Compressed.{Good}
use claw_crony.FileSecurity.Address.Groups.{hex4, IsGroup, Groups, listed, is_private_groups}
use claw_crony.FileSecurity.Address.Private6.{is_private_ipv6-groups}
use claw_crony.FileSecurity.Uri.{
  Url, Platform, Answer, strip_brackets, validate_uri, found, blocked_private_ip,
  resolves_to_private_ip, too_large, passed, rejected,
}
use claw_crony.FileSecurity.Uri.Outbound.{IsSafe}
use claw_crony.FileSecurity.Uri.Safe.{validate_uri-IsSafe}
use claw_crony.FileSecurity.Media.{decoded_base64_size, check_file_size, detect_mime_type}
use claw_crony.FileSecurity.Logged.{sanitize_uri_for_log, sanitize_uri_for_log-SameTarget}

abbrev net : Net
net = record {
  is_ipv4 = λ a. same a (codes "10.1.2.3") || same a (codes "8.8.8.8");
  is_ipv6 = λ a. same a (codes "::1");
}

abbrev url_of : Text → Text → Url
url_of host secret = record {
  protocol = codes "https:";
  username = [];
  password = secret;
  hostname = host;
  port = [];
  pathname = codes "/f";
  search = secret;
  hash = [];
}

abbrev parse : Text → Option Url
parse [] = none
parse (c ∷ a) = some (url_of a (c ∷ []))

abbrev platform : Platform
platform = record {
  parse_url = parse;
  to_string = λ url. url.hostname ++ url.pathname ++ url.search;
  net = net;
}

abbrev resolve : Text → Answer
resolve h =
    if same h (codes "intra.example") then found (codes "10.1.2.3") else found (codes "8.8.8.8")

private_literal : is_private_ip net (codes "10.1.2.3") ≡ true
unfolding is_private_ip
private_literal = refl

mapped_literal : is_private_ip net (codes "::FFFF:127.0.0.1") ≡ true
unfolding is_private_ip
mapped_literal = refl

loopback_short : is_private_ip net (codes "::1") ≡ true
unfolding is_private_ip
loopback_short = refl

blocked :
    validate_uri platform [] resolve (codes "x10.1.2.3")
    ≡ rejected (blocked_private_ip (codes "10.1.2.3"))
unfolding validate_uri
blocked = refl

resolved_inside :
    validate_uri platform [] resolve (codes "xintra.example")
    ≡ rejected (resolves_to_private_ip (codes "intra.example") (codes "10.1.2.3"))
unfolding validate_uri
resolved_inside = refl

let_through : validate_uri platform (codes "*.example" ∷ []) resolve (codes "xa.example") ≡ passed
unfolding validate_uri
let_through = refl

bracketed : strip_brackets (codes "[::1]") ≡ codes "::1"
unfolding strip_brackets
bracketed = refl

malformed_size : decoded_base64_size (codes "=") ≡ negsuc 0
unfolding decoded_base64_size
malformed_size = refl

mime_of_path : detect_mime_type (λ p. drop 1 p) (codes "a.PDF") ≡ codes "application/pdf"
unfolding detect_mime_type
mime_of_path = refl

too_big : check_file_size 11 10 ≡ rejected (too_large 11 10)
unfolding check_file_size
too_big = refl

-- A mapped address in the long form with a dotted end passes as public.
long_mapped : is_private_ipv6 (codes "0:0:0:0:0:ffff:127.0.0.1") ≡ false
unfolding is_private_ipv6
long_mapped = refl

validate_uri-IsSafe_example :
    (validate_uri platform (codes "*.example" ∷ []) resolve (codes "xa.example") ≡ passed) ↔ (
      (url : Url) × (parse (codes "xa.example") ≡ some url)
      × IsSafe net (codes "*.example" ∷ []) resolve url)
validate_uri-IsSafe_example =
    validate_uri-IsSafe platform (codes "*.example" ∷ []) resolve (codes "xa.example")

abbrev mapped_ten : Groups
mapped_ten = record { g0 = 0; g1 = 0; g2 = 0; g3 = 0; g4 = 0; g5 = 65535; g6 = 2560; g7 = 1 }

abbrev mapped_ten_groups : List Text
mapped_ten_groups =
    codes "0"
    ∷ codes "0"
    ∷ codes "0"
    ∷ codes "0"
    ∷ codes "0"
    ∷ codes "FFFF"
    ∷ codes "a00"
    ∷ codes "1"
    ∷ []

mapped_ten-Good : All Good mapped_ten_groups
mapped_ten-Good = grind arith

mapped_ten_small : All IsGroup (listed mapped_ten)
mapped_ten_small = grind arith

mapped_ten_spelled : map pad mapped_ten_groups ≡ map hex4 (listed mapped_ten)
unfolding pad hex4
mapped_ten_spelled = refl

is_private_ipv6-groups_example :
    is_private_ipv6 (join b':' mapped_ten_groups) ≡ is_private_groups mapped_ten
is_private_ipv6-groups_example =
    is_private_ipv6-groups mapped_ten_groups mapped_ten mapped_ten-Good mapped_ten_small
      mapped_ten_spelled

one_group-Good : All Good (codes "fe80" ∷ [])
one_group-Good = grind arith

plain_pattern : starts_with (lower (codes "a.example")) (codes "*.") ≡ false
unfolding starts_with lower
plain_pattern = refl

png-Free : Free b';' (codes " Image/PNG ")
png-Free = grind arith

sanitize_uri_for_log-SameTarget_example :
    (sanitize_uri_for_log platform 5 (codes "xa.example")
      ≡ sanitize_uri_for_log platform 5 (codes "ya.example"))
    × (length (sanitize_uri_for_log platform 5 (codes "xa.example")) ≤ 8)
sanitize_uri_for_log-SameTarget_example =
    sanitize_uri_for_log-SameTarget platform 5 (codes "xa.example") (codes "ya.example")
      (url_of (codes "a.example") (codes "x")) (url_of (codes "a.example") (codes "y")) refl refl
      (refl, refl, refl, refl)
