-- ===== src/FileSecurity/Media/Sizes.antt =====
-- src/file-security.ts: `decodedBase64Size` against the base64 encoding of RFC 4648.
use claw_crony.Base.{
  ℕ, suc, ◌+◌, ◌-◌, ◌*◌, ◌/◌, ◌%◌, ◌≤◌, ◌≡◌, refl, sym, ◌∙◌, true, false, List, [], ◌∷◌, arith, ltb,
  leb, ◌==◌, if◌then◌else◌, lt→ltb, length, bit,
}
use claw_crony.Base.Integers.{pos, difference}
use claw_crony.Base.Text.{Text}
use claw_crony.FileSecurity.Media.{get_elem?, is_equals_sign, padding, decoded_base64_size}

-- The character for six bits.
abbrev pub letter : ℕ → ℕ
letter v =
    if ltb v 26
    then 65 + v
    else if ltb v 52
    then 71 + v
    else if ltb v 62
    then v - 4
    else if v == 62
    then b'+'
    else b'/'

-- The characters of three octets, and of a last group of one or two.
unfoldable pub encode : List ℕ → Text
encode [] = []
encode (a ∷ []) = letter (a / 4) ∷ letter (a % 4 * 16) ∷ b'=' ∷ b'=' ∷ []
encode (a ∷ b ∷ []) =
    letter (a / 4) ∷ letter (a % 4 * 16 + b / 16) ∷ letter (b % 16 * 4) ∷ b'=' ∷ []
encode (a ∷ b ∷ c ∷ rest) =
    letter (a / 4)
    ∷ letter (a % 4 * 16 + b / 16)
    ∷ letter (b % 16 * 4 + c / 64)
    ∷ letter (c % 64)
    ∷ encode rest

letter-no_sign : (v : ℕ) → (letter v == b'=') ≡ false
letter-no_sign v = ground arith

encode-nonempty : (a : ℕ) (rest : List ℕ) → 4 ≤ length (encode (a ∷ rest))
unfolding encode
encode-nonempty a [] = omega arith
encode-nonempty a (b ∷ []) = omega arith
encode-nonempty a (b ∷ c ∷ rest) = omega arith

-- The padding is read at the last two places.
padding-last :
    (t : Text) (j : ℕ)
    → length t ≡ suc (suc j)
    → padding t ≡ bit (is_equals_sign (get_elem? t (suc j))) + bit (is_equals_sign (get_elem? t j))
unfolding padding
padding-last t j h =
    let last : length t - 1 ≡ suc j = omega arith in
    let before : length t - 2 ≡ j = omega arith in
    let long : ltb 1 (length t) ≡ true = lt→ltb 1 (length t) (omega arith) in
    rw (padding, last, before, long) refl

padding-shift :
    (p q r s : ℕ) (t : Text) (j : ℕ)
    → length t ≡ suc (suc j)
    → padding (p ∷ q ∷ r ∷ s ∷ t) ≡ padding t
padding-shift p q r s t j h =
    padding-last (p ∷ q ∷ r ∷ s ∷ t) (suc (suc (suc (suc j)))) (omega arith)
    ∙ sym (padding-last t j h)

-- The length is a multiple of four, and without the padding each four stand for three octets.
encode_size :
    (bytes : List ℕ) → (4 * length bytes + 4 * padding (encode bytes) ≡ 3 * length (encode bytes))
unfolding encode padding
encode_size [] = omega arith
encode_size (a ∷ []) = omega arith
encode_size (a ∷ b ∷ []) = ground (arith, letter-no_sign (b % 16 * 4))
encode_size (a ∷ b ∷ c ∷ []) =
    ground (arith, letter-no_sign (b % 16 * 4 + c / 64), letter-no_sign (c % 64))
encode_size (a ∷ b ∷ c ∷ d ∷ rest) =
    let long = encode-nonempty d rest in
    omega (
      arith,
      encode_size (d ∷ rest),
      padding-shift (letter (a / 4)) (letter (a % 4 * 16 + b / 16)) (letter (b % 16 * 4 + c / 64))
          (letter (c % 64)) (encode (d ∷ rest)) (length (encode (d ∷ rest)) - 2) (omega arith),
    )

size_lem :
    (n l p : ℕ)
    → 4 * n + 4 * p ≡ 3 * l
    → 4 ≤ l
    → (if l == 0 then pos 0 else difference (l * 3 / 4) p) ≡ pos n
size_lem n l p h k =
    let three : l * 3 / 4 ≡ n + p = omega arith in
    let large : leb p (n + p) ≡ true = ground arith in
    let rest : (n + p) - p ≡ n = omega arith in
    let some_text : (l == 0) ≡ false = ground arith in rw (some_text, three, large, rest) refl

-- The size that is computed from the encoding of a list of octets is their number.
pub decoded_base64_size-encode :
    (bytes : List ℕ) → decoded_base64_size (encode bytes) ≡ pos (length bytes)
unfolding decoded_base64_size encode
decoded_base64_size-encode [] = refl
decoded_base64_size-encode (a ∷ rest) =
    size_lem (length (a ∷ rest)) (length (encode (a ∷ rest))) (padding (encode (a ∷ rest)))
      (encode_size (a ∷ rest)) (encode-nonempty a rest)
