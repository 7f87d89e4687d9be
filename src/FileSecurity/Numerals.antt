-- ===== src/FileSecurity/Numerals.antt =====
-- The numbers in addresses that src/file-security.ts reads and prints: `Number`, `parseInt(_, 16)`,
-- the masks and shifts, and numbers in templates.
use claw_crony.Base.{
  zero, suc, ℕ, ◌+◌, ◌-◌, ◌*◌, ◌/◌, ◌%◌, ◌<◌, ◌≡◌, refl, ◌&&◌, Option, none, some, [], ◌∷◌, ◌++◌,
  arith, ltb, leb, if◌then◌else◌, ◌>>=◌,
}
use claw_crony.Base.Text.{Text, Free}

-- The value of a decimal digit.
abbrev pub digit_value : ℕ → Option ℕ
digit_value c = if leb 48 c && leb c 57 then some (c - 48) else none

unfoldable pub digits_onto : ℕ → Text → Option ℕ
digits_onto n [] = some n
digits_onto n (c ∷ a) = do d ← digit_value c; digits_onto (n * 10 + d) a

-- `Number` on a text of decimal digits, the only texts that `isPrivateIpv4` gets; the empty text
-- is 0, and `none` is NaN.
unfoldable pub number : Text → Option ℕ
unfolding digits_onto
number a = digits_onto 0 a

-- The value of a hexadecimal digit.
abbrev pub hex_value : ℕ → Option ℕ
hex_value c =
    if leb 48 c && leb c 57
    then some (c - 48)
    else if leb 97 c && leb c 102
    then some (c - 87)
    else if leb 65 c && leb c 70
    then some (c - 55)
    else none

unfoldable pub hex_onto : ℕ → Text → ℕ
hex_onto n [] = n
hex_onto n (c ∷ a) = elim (hex_value c) [ none ↦ n | some d ↦ hex_onto (n * 16 + d) a ]

-- `parseInt(a, 16)`: the digits in front. NaN stands only under `&` and `>>`, which read it as 0.
unfoldable pub parse_hex : Text → ℕ
unfolding hex_onto
parse_hex a = hex_onto 0 a

-- `n & 0xfe00`, `n & 0xffc0` and `(n >> 8) & 0xff` on sixteen bits
unfoldable pub and_fe00 : ℕ → ℕ
and_fe00 n = n / 512 % 128 * 512

unfoldable pub and_ffc0 : ℕ → ℕ
and_ffc0 n = n / 64 % 1024 * 64

unfoldable pub high_byte : ℕ → ℕ
high_byte n = n / 256 % 256

unfoldable pub low_byte : ℕ → ℕ
low_byte n = n % 256

-- A number below 1000 in decimal, as a template prints it.
unfoldable pub decimal : ℕ → Text
decimal n =
    if ltb n 10
    then (48 + n) ∷ []
    else if ltb n 100
    then (48 + n / 10) ∷ (48 + n % 10) ∷ []
    else (48 + n / 100) ∷ (48 + n / 10 % 10) ∷ (48 + n % 10) ∷ []

unfoldable pub dotted : ℕ → ℕ → ℕ → ℕ → Text
unfolding decimal
dotted a b c d = decimal a ++ (b'.' ∷ (decimal b ++ (b'.' ∷ (decimal c ++ (b'.' ∷ decimal d)))))

digit_value-digit : (d : ℕ) → d < 10 → digit_value (48 + d) ≡ some d
digit_value-digit d h = ground arith

digits_onto-digit :
    (n d : ℕ) (a : Text) → d < 10 → digits_onto n ((48 + d) ∷ a) ≡ digits_onto (n * 10 + d) a
unfolding digits_onto
digits_onto-digit n d a h = rw (digit_value-digit d h) refl

pub number-decimal : (n : ℕ) → n < 256 → number (decimal n) ≡ some n
unfolding number decimal digits_onto
number-decimal n h = ground (
  arith,
  digits_onto-digit 0 n [],
  digits_onto-digit 0 (n / 10) ((48 + n % 10) ∷ []),
  digits_onto-digit (n / 10) (n % 10) [],
  digits_onto-digit 0 (n / 100) ((48 + n / 10 % 10) ∷ (48 + n % 10) ∷ []),
  digits_onto-digit (n / 100) (n / 10 % 10) ((48 + n % 10) ∷ []),
  digits_onto-digit (n / 100 * 10 + n / 10 % 10) (n % 10) [],
)

pub decimal-Free : (s n : ℕ) → s < 48 → Free s (decimal n)
unfolding decimal
decimal-Free s n h = ground arith

-- Any number in decimal; the number itself is fuel enough for its digits.
unfoldable pub decimal_onto : ℕ → ℕ → Text → Text
decimal_onto zero n acc = acc
decimal_onto (suc fuel) n acc =
    let digits = (48 + n % 10) ∷ acc in
    let rest = decimal_onto fuel (n / 10) digits in if ltb n 10 then digits else rest

unfoldable pub decimal_of : ℕ → Text
unfolding decimal_onto
decimal_of n = decimal_onto (suc n) n []
