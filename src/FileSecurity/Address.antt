-- ===== src/FileSecurity/Address.antt =====
-- `isPrivateIp`, `isPrivateIpv4`, `isPrivateIpv6` and `normalizeIpv6` of src/file-security.ts.
use claw_crony.Base.{
  ℕ, zero, suc, ◌+◌, ◌-◌, ◌*◌, ◌/◌, ◌%◌, ◌^◌, ◌≤◌, ◌<◌, min, max, String, ◌≡◌, refl, sym, ap, ◌∙◌,
  subst, ◌≡⟨◌⟩◌, ◌∎, ◌≢◌, ◌↔◌, ◌⊎◌, inl, inr, Bool, true, false, not, ◌&&◌, ◌||◌, Option, none,
  some, List, [], ◌∷◌, ◌++◌, map, append-nil, append_assoc, arith, eq_iff, str_eq, ltb, leb, ◌==◌,
  if◌then◌else◌, ltb→lt, leb→le, lt→ltb, le→leb, ==_iff, Bool-cases, Option-cases, ◌>>=◌, length,
  length-append, take, drop, length-take, filter, length-filter-le, any, find?, All, All-append,
  All-filter, All-take, All-map_imp, List-cases, bit, count, count-append, count-filter_le,
}
use claw_crony.Base.Text.{Text, codes, same, starts_with, lower, split, join, cons_head}
use claw_crony.FileSecurity.Numerals.{
  number, and_fe00, and_ffc0, high_byte, low_byte, dotted, parse_hex,
}
pub mod Ranges
pub mod Compressed
pub mod Groups
pub mod Private6

-- `a.split(".").map(Number)`, with `none` where a part is not a number from 0 to 255
unfoldable pub octet : Text → Option ℕ
unfolding number
octet a = do n ← number a; if ltb 255 n then none else some n

unfoldable pub octets : List Text → Option (List ℕ)
unfolding octet
octets [] = some []
octets (p ∷ ps) = do n ← octet p; ns ← octets ps; some (n ∷ ns)

-- The tests on the first two octets.
unfoldable pub is_reserved : ℕ → ℕ → Bool
is_reserved a b =
    (a == 0)
    || (a == 10)
    || (a == 127)
    || ((a == 172) && leb 16 b && leb b 31)
    || ((a == 192) && (b == 168))
    || ((a == 169) && (b == 254))

-- Anything but four parts is malformed, and counts as private.
unfoldable pub four_reserved : Option (List ℕ) → Bool
unfolding is_reserved
four_reserved (some (a ∷ b ∷ c ∷ d ∷ [])) = is_reserved a b
four_reserved _ = true

unfoldable pub is_private_ipv4 : Text → Bool
unfolding split octets four_reserved
is_private_ipv4 ip = four_reserved (octets (split b'.' ip))

unfoldable pub pad_start : ℕ → Text → Text
pad_start zero a = a
pad_start (suc n) a = let rest = pad_start n a in if ltb n (4 - length a) then b'0' ∷ rest else rest

-- `s.padStart(4, "0").toLowerCase()`
unfoldable pub pad : Text → Text
unfolding pad_start lower
pad a = lower (pad_start 4 a)

-- `half ? half.split(":") : []`
unfoldable pub groups_of : Text → List Text
unfolding split
groups_of [] = []
groups_of (c ∷ a) = split b':' (c ∷ a)

unfoldable pub zeros : ℕ → List Text
zeros zero = []
zeros (suc n) = codes "0" ∷ zeros n

-- `ip.split("::")`
unfoldable pub split_double : Text → List Text
split_double [] = [] ∷ []
split_double (c ∷ []) = (c ∷ []) ∷ []
split_double (c ∷ d ∷ a) =
    let rest = split_double a in
    let onward = split_double (d ∷ a) in
    if (c == b':') && (d == b':') then [] ∷ rest else cons_head c onward

-- The segments: with one `::`, the groups that are missing from eight are "0".
unfoldable pub segments : Text → List Text → List Text
unfolding groups_of zeros split
segments ip (left ∷ right ∷ []) =
    groups_of left
    ++ (zeros (8 - length (groups_of left) - length (groups_of right)) ++ groups_of right)
segments ip _ = split b':' ip

unfoldable pub normalize_ipv6 : Text → Text
unfolding segments split_double pad join
normalize_ipv6 ip = join b':' (map pad (segments ip (split_double ip)))

-- The IPv4 address in the last two groups; a missing group is undefined, which counts as 0.
unfoldable pub embedded : List Text → Text
unfolding dotted high_byte low_byte parse_hex
embedded (hi ∷ lo ∷ _) =
    dotted (high_byte (parse_hex hi)) (low_byte (parse_hex hi)) (high_byte (parse_hex lo))
      (low_byte (parse_hex lo))
embedded (hi ∷ []) = dotted (high_byte (parse_hex hi)) (low_byte (parse_hex hi)) 0 0
embedded [] = dotted 0 0 0 0

abbrev pub loopback : Text
loopback = codes "0000:0000:0000:0000:0000:0000:0000:0001"

abbrev pub unspecified : Text
unspecified = codes "0000:0000:0000:0000:0000:0000:0000:0000"

abbrev pub mapped : Text
mapped = codes "0000:0000:0000:0000:0000:ffff:"

-- `isPrivateIpv6`, on the normalized text
unfoldable pub is_private_normal : Text → Bool
unfolding same starts_with and_fe00 and_ffc0 parse_hex embedded is_private_ipv4 split
is_private_normal t =
    if same t loopback
    then true
    else if same t unspecified
    then true
    else if and_fe00 (parse_hex (take 4 t)) == 64512
    then true
    else if and_ffc0 (parse_hex (take 4 t)) == 65152
    then true
    else if starts_with t mapped
    then is_private_ipv4 (embedded (split b':' (drop 30 t)))
    else false

unfoldable pub is_private_ipv6 : Text → Bool
unfolding is_private_normal normalize_ipv6
is_private_ipv6 ip = is_private_normal (normalize_ipv6 ip)

abbrev pub all_digits : Text → Bool
all_digits a = length (filter (λ c. leb 48 c && leb c 57) a) == length a

-- `\d{1,3}`
abbrev pub is_short_number : Text → Bool
is_short_number a = leb 1 (length a) && leb (length a) 3 && all_digits a

abbrev pub four_short : List Text → Bool
four_short (a ∷ b ∷ c ∷ d ∷ []) =
    is_short_number a && is_short_number b && is_short_number c && is_short_number d
four_short _ = false

-- What `/^::ffff:(\d{1,3}\.\d{1,3}\.\d{1,3}\.\d{1,3})$/i` captures.
unfoldable pub mapped_match : Text → Option Text
unfolding starts_with lower split
mapped_match ip =
    if starts_with (lower ip) (codes "::ffff:") && four_short (split b'.' (drop 7 ip))
    then some (drop 7 ip)
    else none

-- The two tests of `node:net`.
pub record Net : Type 0 where
  pub is_ipv4 : Text → Bool
  pub is_ipv6 : Text → Bool

-- `isPrivateIp`; what is no address at all counts as private.
unfoldable pub is_private_ip : Net → Text → Bool
unfolding mapped_match is_private_ipv4 is_private_ipv6
is_private_ip net ip = elim (mapped_match ip) [
  | some inner ↦ is_private_ipv4 inner
  | none ↦
      if net.is_ipv4 ip
      then is_private_ipv4 ip
      else if net.is_ipv6 ip
      then is_private_ipv6 ip
      else true
]
