-- ===== src/Base/Text.antt =====
-- Texts as lists of character codes, with the string methods that the sources call. Letters are
-- lowered in the ASCII range, which holds the literals that the sources compare with.
use Prim.Native.Nat.{ℕ, ◌+◌, ◌≤◌}
use Prim.Native.Char.{code}
use Prim.Native.String.{String}
use mathlib.Core.Path.{◌≡◌, refl, ap, ◌∙◌}
use mathlib.Core.Logic.{◌≢◌, ◌↔◌, inl, inr}
use mathlib.Core.Bool.{Bool, true, false, ◌&&◌, ◌||◌}
use mathlib.Core.List.{List, [], ◌∷◌, ◌++◌}
use native.Mathlib.Omega.{arith}
use claw_crony.Base.Tests.{◌==◌, leb, if◌then◌else◌, Bool-cases}
use claw_crony.Base.Lists.{length, take, All, length-append, length-take}

abbrev pub Text : Type 0
Text = List ℕ

-- The codes of a literal.
abbrev pub codes : String → Text
codes String.[] = []
codes (String.◌∷◌ c s) = code c ∷ codes s

-- `a === b`
unfoldable pub same : Text → Text → Bool
same [] [] = true
same [] (y ∷ ys) = false
same (x ∷ xs) [] = false
same (x ∷ xs) (y ∷ ys) = if x == y then same xs ys else false

pub same_iff : (a b : Text) → (same a b ≡ true) ↔ (a ≡ b)
unfolding same
same_iff [] [] = ground arith
same_iff [] (y ∷ ys) = ground arith
same_iff (x ∷ xs) [] = ground arith
same_iff (x ∷ xs) (y ∷ ys) = ground (arith, same_iff xs ys)

-- `a.startsWith(p)`
unfoldable pub starts_with : Text → Text → Bool
starts_with a [] = true
starts_with [] (p ∷ ps) = false
starts_with (x ∷ a) (p ∷ ps) = if x == p then starts_with a ps else false

pub starts_with_append : (p a : Text) → starts_with (p ++ a) p ≡ true
unfolding starts_with
starts_with_append [] a = refl
starts_with_append (x ∷ p) a = ground (arith, starts_with_append p a)

pub starts_with_split : (a p : Text) → starts_with a p ≡ true → (rest : Text) × (a ≡ p ++ rest)
unfolding starts_with
starts_with_split a [] h = (a, refl)
starts_with_split [] (p ∷ ps) h = ground arith
starts_with_split (x ∷ a) (p ∷ ps) h =
    let (rest, e) = starts_with_split a ps (ground arith) in (rest, ground arith)

-- `a.endsWith(s)`
unfoldable pub ends_with : Text → Text → Bool
unfolding same
ends_with [] s = same [] s
ends_with (x ∷ a) s = if same (x ∷ a) s then true else ends_with a s

pub ends_with_self : (s : Text) → ends_with s s ≡ true
unfolding ends_with
ends_with_self [] = (same_iff [] []).1 refl
ends_with_self (x ∷ s) = ground (arith, same_iff (x ∷ s) (x ∷ s))

pub ends_with_append : (a s : Text) → ends_with (a ++ s) s ≡ true
unfolding ends_with
ends_with_append [] s = ends_with_self s
ends_with_append (x ∷ a) s = ground (arith, ends_with_append a s)

pub ends_with_split : (a s : Text) → ends_with a s ≡ true → (pre : Text) × (a ≡ pre ++ s)
unfolding ends_with
ends_with_split [] s h = ([], (same_iff [] s).0 h)
ends_with_split (x ∷ a) s h = elim (Bool-cases (same (x ∷ a) s)) [
  | inl e ↦ ([], (same_iff (x ∷ a) s).0 e)
  | inr e ↦ let (pre, q) = ends_with_split a s (ground arith) in (x ∷ pre, ap (λ t. x ∷ t) q)
]

-- `a.includes(s)`
unfoldable pub includes : Text → Text → Bool
unfolding starts_with
includes [] s = starts_with [] s
includes (x ∷ a) s = if starts_with (x ∷ a) s then true else includes a s

abbrev pub lower_code : ℕ → ℕ
lower_code c = if leb 65 c && leb c 90 then c + 32 else c

-- `a.toLowerCase()`
unfoldable pub lower : Text → Text
lower [] = []
lower (c ∷ a) = lower_code c ∷ lower a

pub lower-append : (a b : Text) → lower (a ++ b) ≡ lower a ++ lower b
unfolding lower
lower-append [] b = refl
lower-append (c ∷ a) b = ap (λ t. lower_code c ∷ t) (lower-append a b)

pub lower_idem : (a : Text) → lower (lower a) ≡ lower a
unfolding lower
lower_idem [] = refl
lower_idem (c ∷ a) = ground (arith, lower_idem a)

pub length-lower : (a : Text) → length (lower a) ≡ length a
unfolding lower
length-lower [] = refl
length-lower (c ∷ a) = omega (arith, length-lower a)

-- The white space and line terminators that `trim` removes.
abbrev pub is_space : ℕ → Bool
is_space c =
    (leb 9 c && leb c 13)
    || (c == 32)
    || (c == 160)
    || (c == 5760)
    || (leb 8192 c && leb c 8202)
    || (c == 8232)
    || (c == 8233)
    || (c == 8239)
    || (c == 8287)
    || (c == 12288)
    || (c == 65279)

unfoldable pub trim_start : Text → Text
trim_start [] = []
trim_start (c ∷ a) = if is_space c then trim_start a else c ∷ a

abbrev pub keep_unless_blank : ℕ → Text → Text
keep_unless_blank c [] = if is_space c then [] else c ∷ []
keep_unless_blank c (d ∷ a) = c ∷ d ∷ a

unfoldable pub trim_end : Text → Text
trim_end [] = []
trim_end (c ∷ a) = keep_unless_blank c (trim_end a)

-- `a.trim()`
unfoldable pub trim : Text → Text
unfolding trim_start trim_end
trim a = trim_end (trim_start a)

abbrev pub cons_head : ℕ → List Text → List Text
cons_head c [] = (c ∷ []) ∷ []
cons_head c (t ∷ ts) = (c ∷ t) ∷ ts

-- `a.split(s)` for a separator of one character.
unfoldable pub split : ℕ → Text → List Text
split s [] = [] ∷ []
split s (c ∷ a) = if c == s then [] ∷ split s a else cons_head c (split s a)

abbrev pub Free : ℕ → Text → Type 0
Free s = All (λ c. c ≢ s)

pub split-append : (s : ℕ) (a b : Text) → Free s a → split s (a ++ s ∷ b) ≡ a ∷ split s b
unfolding split
split-append s [] b f = ground arith
split-append s (c ∷ a) b (n, f) = ground (arith, split-append s a b f)

pub split-Free : (s : ℕ) (a : Text) → Free s a → split s a ≡ a ∷ []
unfolding split
split-Free s [] f = refl
split-Free s (c ∷ a) (n, f) = ground (arith, split-Free s a f)

-- `ts.join(s)` for a separator of one character.
unfoldable pub join : ℕ → List Text → Text
join s [] = []
join s (t ∷ []) = t
join s (t ∷ u ∷ ts) = t ++ s ∷ join s (u ∷ ts)

pub split-join :
    (s : ℕ) (t : Text) (ts : List Text) → All (Free s) (t ∷ ts) → split s (join s (t ∷ ts)) ≡ t ∷ ts
unfolding join
split-join s t [] (f, _) = split-Free s t f
split-join s t (u ∷ ts) (f, fs) =
    split-append s t (join s (u ∷ ts)) f ∙ ap (λ r. t ∷ r) (split-join s u ts fs)

-- `a.slice(0, n) + "..."` where the text is longer than `n`, else the text.
unfoldable pub clip : ℕ → Text → Text
clip n a = if leb (length a) n then a else take n a ++ codes "..."

pub length-clip_le : (n : ℕ) (a : Text) → length (clip n a) ≤ n + 3
unfolding clip
length-clip_le n a = ground (arith, length-append (take n a) (codes "..."), length-take n a)
