-- ===== src/FileSecurity/Address/Groups.antt =====
-- src/file-security.ts: `isPrivateIpv6` on the eight groups of an address, in any spelling.
use claw_crony.Base.{
  ℕ, ◌+◌, ◌*◌, ◌/◌, ◌%◌, ◌<◌, ◌≡◌, refl, sym, ap, ◌∙◌, inl, inr, Bool, true, false, ◌&&◌, ◌||◌,
  some, List, [], ◌∷◌, ◌++◌, map, arith, ltb, leb, ◌==◌, if◌then◌else◌, ==_iff, Bool-cases, length,
  any, All,
}
use claw_crony.Base.Text.{Text, same, same_iff, starts_with, join}
use claw_crony.FileSecurity.Numerals.{hex_value, hex_onto, parse_hex}
use claw_crony.FileSecurity.Address.{loopback, unspecified, mapped}
use claw_crony.FileSecurity.Address.Ranges.{holds, private_blocks}
use claw_crony.FileSecurity.Address.Compressed.{Good}

abbrev digit : ℕ → ℕ
digit d = if ltb d 10 then 48 + d else 87 + d

-- Four hexadecimal digits in lower case.
unfoldable pub hex4 : ℕ → Text
hex4 n = digit (n / 4096) ∷ digit (n / 256 % 16) ∷ digit (n / 16 % 16) ∷ digit (n % 16) ∷ []

hex_onto-digit : (n d : ℕ) (a : Text) → d < 16 → hex_onto n (digit d ∷ a) ≡ hex_onto (n * 16 + d) a
unfolding hex_onto
hex_onto-digit n d a h = rw (hex_onto, value) refl
  where
    value : hex_value (digit d) ≡ some d
    value = ground arith

pub parse_hex-hex4 : (n : ℕ) → n < 65536 → parse_hex (hex4 n) ≡ n
unfolding parse_hex hex4 hex_onto
parse_hex-hex4 n h =
    hex_onto-digit 0 (n / 4096) (digit (n / 256 % 16) ∷ digit (n / 16 % 16) ∷ digit (n % 16) ∷ [])
      (omega arith)
    ∙ hex_onto-digit (0 * 16 + n / 4096) (n / 256 % 16) (digit (n / 16 % 16) ∷ digit (n % 16) ∷ [])
        (omega arith)
    ∙ hex_onto-digit ((0 * 16 + n / 4096) * 16 + n / 256 % 16) (n / 16 % 16) (digit (n % 16) ∷ [])
        (omega arith)
    ∙ hex_onto-digit (((0 * 16 + n / 4096) * 16 + n / 256 % 16) * 16 + n / 16 % 16) (n % 16) []
        (omega arith)
    ∙ omega arith

pub hex4-Good : (n : ℕ) → Good (hex4 n)
unfolding hex4
hex4-Good n = (ground arith, (ground arith, (ground arith, (ground arith, tt))))

hex4_inj : (m n : ℕ) → m < 65536 → n < 65536 → hex4 m ≡ hex4 n → m ≡ n
hex4_inj m n hm hn e = sym (parse_hex-hex4 m hm) ∙ ap parse_hex e ∙ parse_hex-hex4 n hn

abbrev pub IsGroup : ℕ → Type 0
IsGroup n = n < 65536

-- The eight groups of an address.
pub record Groups : Type 0 where
  pub g0 : ℕ
  pub g1 : ℕ
  pub g2 : ℕ
  pub g3 : ℕ
  pub g4 : ℕ
  pub g5 : ℕ
  pub g6 : ℕ
  pub g7 : ℕ

abbrev pub listed : Groups → List ℕ
listed a = a.g0 ∷ a.g1 ∷ a.g2 ∷ a.g3 ∷ a.g4 ∷ a.g5 ∷ a.g6 ∷ a.g7 ∷ []

abbrev pub five_zeros : Groups → Bool
five_zeros a = (a.g0 == 0) && (a.g1 == 0) && (a.g2 == 0) && (a.g3 == 0) && (a.g4 == 0)

-- ::1 and ::, fc00::/7, fe80::/10, and the mapped addresses of the private IPv4 blocks.
abbrev pub is_private_groups : Groups → Bool
is_private_groups a =
    (five_zeros a && (a.g5 == 0) && (a.g6 == 0) && leb a.g7 1)
    || ((a.g0 / 512) == 126)
    || ((a.g0 / 64) == 1018)
    || (five_zeros a && (a.g5 == 65535) && any (holds (a.g6 * 65536 + a.g7)) private_blocks)

same-hex4 : (m n : ℕ) → m < 65536 → n < 65536 → same (hex4 m) (hex4 n) ≡ (m == n)
same-hex4 m n hm hn = elim (Bool-cases (same (hex4 m) (hex4 n))) [
  | inl e ↦ let q : m ≡ n = hex4_inj m n hm hn ((same_iff (hex4 m) (hex4 n)).0 e) in ground arith
  | inr e ↦ differ e
]
  where
    differ : same (hex4 m) (hex4 n) ≡ false → same (hex4 m) (hex4 n) ≡ (m == n)
    differ e = elim (Bool-cases (m == n)) [
      | inl q ↦
          let r : hex4 m ≡ hex4 n = ap hex4 ((==_iff m n).0 q) in
          ground (arith, (same_iff (hex4 m) (hex4 n)).1 r)
      | inr q ↦ e ∙ sym q
    ]

-- A text of four characters in front of a colon.
same-four :
    (m n : ℕ) (r s : Text)
    → m < 65536
    → n < 65536
    → same (hex4 m ++ (b':' ∷ r)) (hex4 n ++ (b':' ∷ s)) ≡ ((m == n) && same r s)
unfolding same hex4
same-four m n r s hm hn = rw (← same-hex4 m n hm hn) (ground arith)

starts_with-four :
    (m n : ℕ) (r s : Text)
    → m < 65536
    → n < 65536
    → starts_with (hex4 m ++ (b':' ∷ r)) (hex4 n ++ (b':' ∷ s)) ≡ ((m == n) && starts_with r s)
unfolding same hex4 starts_with
starts_with-four m n r s hm hn = rw (← same-hex4 m n hm hn) (ground arith)

abbrev pub written : Groups → Text
written a = join b':' (map hex4 (listed a))

abbrev pub eq_all : List ℕ → List ℕ → Bool
eq_all [] [] = true
eq_all [] (n ∷ ns) = false
eq_all (m ∷ ms) [] = false
eq_all (m ∷ ms) (n ∷ ns) = (m == n) && eq_all ms ns

same-join :
    (m n : ℕ) (ms ns : List ℕ)
    → length ms ≡ length ns
    → All IsGroup (m ∷ ms)
    → All IsGroup (n ∷ ns)
    → same (join b':' (map hex4 (m ∷ ms))) (join b':' (map hex4 (n ∷ ns)))
      ≡ eq_all (m ∷ ms) (n ∷ ns)
unfolding join
same-join m n [] [] e (hm, _) (hn, _) = same-hex4 m n hm hn ∙ ground arith
same-join m n [] (k ∷ ns) e hm hn = absurd (omega arith)
same-join m n (j ∷ ms) [] e hm hn = absurd (omega arith)
same-join m n (j ∷ ms) (k ∷ ns) e (hm, hms) (hn, hns) =
    same-four m n (join b':' (map hex4 (j ∷ ms))) (join b':' (map hex4 (k ∷ ns))) hm hn
    ∙ ap (λ b. (m == n) && b) (same-join j k ms ns (omega arith) hms hns)

abbrev pub zero_to : ℕ → List ℕ
zero_to n = 0 ∷ 0 ∷ 0 ∷ 0 ∷ 0 ∷ 0 ∷ 0 ∷ n ∷ []

zero_to-groups : (n : ℕ) → n < 65536 → All IsGroup (zero_to n)
zero_to-groups n h = let z : 0 < 65536 = omega arith in (z, (z, (z, (z, (z, (z, (z, (h, tt))))))))

pub same-zero_to :
    (a : Groups) (n : ℕ)
    → All IsGroup (listed a)
    → n < 65536
    → same (written a) (join b':' (map hex4 (zero_to n))) ≡ eq_all (listed a) (zero_to n)
same-zero_to a n h hn =
    same-join a.g0 0 (a.g1 ∷ a.g2 ∷ a.g3 ∷ a.g4 ∷ a.g5 ∷ a.g6 ∷ a.g7 ∷ [])
      (0 ∷ 0 ∷ 0 ∷ 0 ∷ 0 ∷ 0 ∷ n ∷ []) refl h (zero_to-groups n hn)

pub loopback-written : join b':' (map hex4 (zero_to 1)) ≡ loopback
unfolding join hex4
loopback-written = refl

pub unspecified-written : join b':' (map hex4 (zero_to 0)) ≡ unspecified
unfolding join hex4
unspecified-written = refl

abbrev mapped_tail : Text
mapped_tail = hex4 65535 ++ (b':' ∷ [])

mapped-written :
    hex4 0
      ++ (b':'
          ∷ (hex4 0
              ++ (b':'
                  ∷ (hex4 0 ++ (b':' ∷ (hex4 0 ++ (b':' ∷ (hex4 0 ++ (b':' ∷ mapped_tail)))))))))
    ≡ mapped
unfolding hex4
mapped-written = refl

pub starts_with-mapped :
    (a : Groups)
    → All IsGroup (listed a)
    → starts_with (written a) mapped ≡ (five_zeros a && (a.g5 == 65535))
unfolding join starts_with
starts_with-mapped a (h0, (h1, (h2, (h3, (h4, (h5, _)))))) =
    let z : 0 < 65536 = omega arith in
    rw
      (
        ← mapped-written,
        starts_with-four a.g0 0
            (join b':' (map hex4 (a.g1 ∷ a.g2 ∷ a.g3 ∷ a.g4 ∷ a.g5 ∷ a.g6 ∷ a.g7 ∷ [])))
            (hex4 0
              ++ (b':'
                  ∷ (hex4 0 ++ (b':' ∷ (hex4 0 ++ (b':' ∷ (hex4 0 ++ (b':' ∷ mapped_tail))))))))
            h0 z,
        starts_with-four a.g1 0
            (join b':' (map hex4 (a.g2 ∷ a.g3 ∷ a.g4 ∷ a.g5 ∷ a.g6 ∷ a.g7 ∷ [])))
            (hex4 0 ++ (b':' ∷ (hex4 0 ++ (b':' ∷ (hex4 0 ++ (b':' ∷ mapped_tail)))))) h1 z,
        starts_with-four a.g2 0 (join b':' (map hex4 (a.g3 ∷ a.g4 ∷ a.g5 ∷ a.g6 ∷ a.g7 ∷ [])))
            (hex4 0 ++ (b':' ∷ (hex4 0 ++ (b':' ∷ mapped_tail)))) h2 z,
        starts_with-four a.g3 0 (join b':' (map hex4 (a.g4 ∷ a.g5 ∷ a.g6 ∷ a.g7 ∷ [])))
            (hex4 0 ++ (b':' ∷ mapped_tail)) h3 z,
        starts_with-four a.g4 0 (join b':' (map hex4 (a.g5 ∷ a.g6 ∷ a.g7 ∷ []))) mapped_tail h4 z,
        starts_with-four a.g5 65535 (join b':' (map hex4 (a.g6 ∷ a.g7 ∷ []))) [] h5 (omega arith),
      )
      (ground arith)
