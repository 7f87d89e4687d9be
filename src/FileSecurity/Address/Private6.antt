-- ===== src/FileSecurity/Address/Private6.antt =====
-- src/file-security.ts: `isPrivateIpv6` against the ranges that its comments name.
use claw_crony.Base.{
  ℕ, ◌+◌, ◌*◌, ◌/◌, ◌%◌, ◌<◌, ◌≡◌, ap, ◌∙◌, List, [], ◌∷◌, map, arith, ◌==◌, take, drop, any, All,
}
use claw_crony.Base.Text.{Text, split, join}
use claw_crony.FileSecurity.Numerals.{parse_hex, and_fe00, and_ffc0, high_byte, low_byte}
use claw_crony.FileSecurity.Address.{
  is_private_ipv4, pad, embedded, is_private_normal, is_private_ipv6,
}
use claw_crony.FileSecurity.Address.Ranges.{address, holds, private_blocks, is_private_ipv4-blocks}
use claw_crony.FileSecurity.Address.Compressed.{Good, split-groups, normalize_ipv6-full}
use claw_crony.FileSecurity.Address.Groups.{
  hex4, parse_hex-hex4, hex4-Good, IsGroup, Groups, listed, is_private_groups, written,
  same-zero_to, loopback-written, unspecified-written, starts_with-mapped,
}

first-group : (a : Groups) → a.g0 < 65536 → parse_hex (take 4 (written a)) ≡ a.g0
unfolding join hex4
first-group a h = parse_hex-hex4 a.g0 h

last-groups : (a : Groups) → split b':' (drop 30 (written a)) ≡ hex4 a.g6 ∷ hex4 a.g7 ∷ []
unfolding join hex4
last-groups a = split-groups (hex4 a.g6) (hex4 a.g7 ∷ []) (hex4-Good a.g6, (hex4-Good a.g7, tt))

embedded-groups :
    (m n : ℕ)
    → m < 65536
    → n < 65536
    → is_private_ipv4 (embedded (hex4 m ∷ hex4 n ∷ [])) ≡ any (holds (m * 65536 + n)) private_blocks
unfolding embedded high_byte low_byte
embedded-groups m n hm hn =
    rw (parse_hex-hex4 m hm, parse_hex-hex4 n hn)
      (is_private_ipv4-blocks (m / 256 % 256) (m % 256) (n / 256 % 256) (n % 256) (omega arith)
          (omega arith) (omega arith) (omega arith)
        ∙ ap (λ x. any (holds x) private_blocks) whole)
  where
    whole : address (m / 256 % 256) (m % 256) (n / 256 % 256) (n % 256) ≡ m * 65536 + n
    whole = omega arith

and_fe00_iff : (n : ℕ) → n < 65536 → (and_fe00 n == 64512) ≡ ((n / 512) == 126)
unfolding and_fe00
and_fe00_iff n h = ground arith

and_ffc0_iff : (n : ℕ) → n < 65536 → (and_ffc0 n == 65152) ≡ ((n / 64) == 1018)
unfolding and_ffc0
and_ffc0_iff n h = ground arith

is_private_normal-written :
    (a : Groups) → All IsGroup (listed a) → is_private_normal (written a) ≡ is_private_groups a
unfolding is_private_normal
is_private_normal-written a h =
    rw
      (
        ← loopback-written,
        ← unspecified-written,
        same-zero_to a 1 h (omega arith),
        same-zero_to a 0 h (omega arith),
        first-group a h.0,
        and_fe00_iff a.g0 h.0,
        and_ffc0_iff a.g0 h.0,
        starts_with-mapped a h,
        last-groups a,
        embedded-groups a.g6 a.g7 (h.1.1.1.1.1.1.0) (h.1.1.1.1.1.1.1.0),
      )
      (ground arith)

-- Eight groups that `pad` brings to the four digits of the numbers of an address are private
-- exactly when the address is :: or ::1, in fc00::/7 or fe80::/10, or carries an IPv4 address of
-- the private blocks behind ::ffff:0:0/96. No group is empty or holds a colon.
pub is_private_ipv6-groups :
    (gs : List Text) (a : Groups)
    → All Good gs
    → All IsGroup (listed a)
    → map pad gs ≡ map hex4 (listed a)
    → is_private_ipv6 (join b':' gs) ≡ is_private_groups a
unfolding is_private_ipv6
is_private_ipv6-groups [] a good groups e = absurd (cc)
is_private_ipv6-groups (g ∷ gs) a good groups e =
    ap is_private_normal (normalize_ipv6-full (g ∷ gs) (omega arith) good ∙ ap (join b':') e)
    ∙ is_private_normal-written a groups
