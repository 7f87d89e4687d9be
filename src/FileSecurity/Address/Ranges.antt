-- ===== src/FileSecurity/Address/Ranges.antt =====
-- src/file-security.ts: `isPrivateIpv4` against the address blocks that its comments name.
use claw_crony.Base.{
  ℕ, ◌+◌, ◌*◌, ◌/◌, ◌<◌, ◌≡◌, refl, ap, ◌∙◌, Bool, true, false, none, some, List, [], ◌∷◌, ◌++◌,
  arith, ◌==◌, any,
}
use claw_crony.Base.Text.{Free, starts_with, lower, codes, Text, split, split-append, split-Free}
use claw_crony.FileSecurity.Numerals.{decimal, dotted, number-decimal, decimal-Free}
use claw_crony.FileSecurity.Address.{
  Net, is_private_ip, mapped_match, octet, octets, is_reserved, four_reserved, is_private_ipv4,
}

-- The address as a number of 32 bits.
abbrev pub address : ℕ → ℕ → ℕ → ℕ → ℕ
address a b c d = ((a * 256 + b) * 256 + c) * 256 + d

-- A block holds the addresses whose quotient by its size is its index: 10.0.0.0/8 has size 2 ^ 24
-- and index 10.
pub record Block : Type 0 where
  pub size : ℕ
  pub index : ℕ

abbrev pub holds : ℕ → Block → Bool
holds x block = (x / block.size) == block.index

-- 0.0.0.0/8, 10.0.0.0/8, 127.0.0.0/8, 172.16.0.0/12, 192.168.0.0/16 and 169.254.0.0/16
abbrev pub private_blocks : List Block
private_blocks =
    record { size = 16_777_216; index = 0 }
    ∷ record { size = 16_777_216; index = 10 }
    ∷ record { size = 16_777_216; index = 127 }
    ∷ record { size = 1_048_576; index = 172 * 16 + 1 }
    ∷ record { size = 65_536; index = 192 * 256 + 168 }
    ∷ record { size = 65_536; index = 169 * 256 + 254 }
    ∷ []

octet-decimal : (n : ℕ) → n < 256 → octet (decimal n) ≡ some n
unfolding octet
octet-decimal n h = rw (number-decimal n h) (ground arith)

octets-cons :
    (n : ℕ) (ps : List Text) (ns : List ℕ)
    → n < 256
    → octets ps ≡ some ns
    → octets (decimal n ∷ ps) ≡ some (n ∷ ns)
unfolding octets
octets-cons n ps ns h e = rw (octet-decimal n h, e) refl

split-dotted :
    (a b c d : ℕ) → split b'.' (dotted a b c d) ≡ decimal a ∷ decimal b ∷ decimal c ∷ decimal d ∷ []
unfolding dotted
split-dotted a b c d =
    split-append b'.' (decimal a) (decimal b ++ (b'.' ∷ (decimal c ++ (b'.' ∷ decimal d))))
      (decimal-Free b'.' a (omega arith))
    ∙ ap (λ t. decimal a ∷ t)
        (split-append b'.' (decimal b) (decimal c ++ (b'.' ∷ decimal d))
            (decimal-Free b'.' b (omega arith))
          ∙ ap (λ t. decimal b ∷ t)
              (split-append b'.' (decimal c) (decimal d) (decimal-Free b'.' c (omega arith))
                ∙ ap (λ t. decimal c ∷ t)
                    (split-Free b'.' (decimal d) (decimal-Free b'.' d (omega arith)))))

pub is_private_ipv4-dotted :
    (a b c d : ℕ)
    → a < 256
    → b < 256
    → c < 256
    → d < 256
    → is_private_ipv4 (dotted a b c d) ≡ is_reserved a b
unfolding is_private_ipv4 four_reserved octets
is_private_ipv4-dotted a b c d ha hb hc hd = rw (split-dotted a b c d, parts) refl
  where
    parts : octets (decimal a ∷ decimal b ∷ decimal c ∷ decimal d ∷ []) ≡ some (a ∷ b ∷ c ∷ d ∷ [])
    parts = octets-cons a (decimal b ∷ decimal c ∷ decimal d ∷ []) (b ∷ c ∷ d ∷ []) ha (
        octets-cons b (decimal c ∷ decimal d ∷ []) (c ∷ d ∷ []) hb
          (octets-cons c (decimal d ∷ []) (d ∷ []) hc (octets-cons d [] [] hd refl)))

is_reserved-blocks :
    (a b c d : ℕ)
    → b < 256
    → c < 256
    → d < 256
    → is_reserved a b ≡ any (holds (address a b c d)) private_blocks
unfolding is_reserved
is_reserved-blocks a b c d hb hc hd = rw (first, second, third) (ground arith)
  where
    first : address a b c d / 16_777_216 ≡ a
    first = omega arith

    second : address a b c d / 1_048_576 ≡ a * 16 + b / 16
    second = omega arith

    third : address a b c d / 65_536 ≡ a * 256 + b
    third = omega arith

-- On the dotted form of four octets the test is true exactly for the addresses in the six blocks
-- 0.0.0.0/8, 10.0.0.0/8, 127.0.0.0/8, 172.16.0.0/12, 192.168.0.0/16 and 169.254.0.0/16, where a
-- block is given by the quotient of the 32-bit address by its size.
pub is_private_ipv4-blocks :
    (a b c d : ℕ)
    → a < 256
    → b < 256
    → c < 256
    → d < 256
    → is_private_ipv4 (dotted a b c d) ≡ any (holds (address a b c d)) private_blocks
is_private_ipv4-blocks a b c d ha hb hc hd =
    is_private_ipv4-dotted a b c d ha hb hc hd ∙ is_reserved-blocks a b c d hb hc hd

starts_with-colon :
    (a rest : Text)
    → Free b':' a
    → starts_with (lower (a ++ (b'.' ∷ rest))) (codes "::ffff:") ≡ false
unfolding starts_with lower
starts_with-colon [] rest free = refl
starts_with-colon (c ∷ a) rest free = ground (arith, free.0)

decimal-colon : (n : ℕ) → n < 256 → Free b':' (decimal n)
unfolding decimal
decimal-colon n h = ground arith

mapped_match-dotted : (a b c d : ℕ) → a < 256 → mapped_match (dotted a b c d) ≡ none
unfolding mapped_match dotted
mapped_match-dotted a b c d h =
    rw
      (
        mapped_match,
        starts_with-colon (decimal a) (decimal b ++ (b'.' ∷ (decimal c ++ (b'.' ∷ decimal d))))
            (decimal-colon a h),
      )
      refl

-- The test of a whole address, on the dotted form of four octets.
pub is_private_ip-blocks :
    (net : Net) (a b c d : ℕ)
    → a < 256
    → b < 256
    → c < 256
    → d < 256
    → net.is_ipv4 (dotted a b c d) ≡ true
    → is_private_ip net (dotted a b c d) ≡ any (holds (address a b c d)) private_blocks
unfolding is_private_ip
is_private_ip-blocks net a b c d ha hb hc hd v4 =
    rw (is_private_ip, mapped_match-dotted a b c d ha, v4)
      (is_private_ipv4-blocks a b c d ha hb hc hd)
