-- ===== src/FileSecurity/Address/Compressed.antt =====
-- src/file-security.ts: `normalizeIpv6` on the short form with `::` and on the form that is written out.
use claw_crony.Base.{
  ℕ, zero, suc, ◌+◌, ◌-◌, ◌≤◌, ◌≡◌, refl, sym, ◌∙◌, ◌≢◌, List, [], ◌∷◌, ◌++◌, map, arith, length,
  length-append, All, All-append, All-map_imp,
}
use claw_crony.Base.Text.{Text, split, Free, join, split-join}
use claw_crony.FileSecurity.Address.{pad, groups_of, zeros, split_double, segments, normalize_ipv6}

-- A group as it stands between two colons: not empty, and without a colon.
abbrev pub Good : Text → Type 0
Good [] = ⊥
Good (c ∷ g) = (c ≢ b':') × Free b':' g

-- No colon at the end, and no two colons in a row.
abbrev Calm : Text → Type 0
Calm [] = Unit
Calm (c ∷ []) = c ≢ b':'
Calm (c ∷ d ∷ a) = (¬ ((c ≡ b':') × (d ≡ b':'))) × Calm (d ∷ a)

split_double-Calm :
    (a rest : Text) → Calm a → split_double (a ++ (b':' ∷ b':' ∷ rest)) ≡ a ∷ split_double rest
unfolding split_double
split_double-Calm [] rest h = refl
split_double-Calm (c ∷ []) rest h = ground arith
split_double-Calm (c ∷ d ∷ a) rest (n, h) = ground (arith, split_double-Calm (d ∷ a) rest h)

split_double-whole : (a : Text) → Calm a → split_double a ≡ a ∷ []
unfolding split_double
split_double-whole [] h = refl
split_double-whole (c ∷ []) h = refl
split_double-whole (c ∷ d ∷ a) (n, h) = ground (arith, split_double-whole (d ∷ a) h)

Free-Calm : (c : ℕ) (g : Text) → c ≢ b':' → Free b':' g → Calm (c ∷ g)
Free-Calm c [] n f = n
Free-Calm c (d ∷ g) n (m, f) = (λ (p, q). n p, Free-Calm d g m f)

Calm-glue :
    (c : ℕ) (g : Text) (d : ℕ) (a : Text)
    → c ≢ b':'
    → Free b':' g
    → d ≢ b':'
    → Calm (d ∷ a)
    → Calm ((c ∷ g) ++ (b':' ∷ d ∷ a))
Calm-glue c [] d a n f m h = (λ (p, q). n p, (λ (p, q). m q, h))
Calm-glue c (e ∷ g) d a n (k, f) m h = (λ (p, q). n p, Calm-glue e g d a k f m h)

-- The join of good groups starts with no colon.
abbrev Starts : Text → Type 0
Starts [] = ⊥
Starts (c ∷ a) = (c ≢ b':') × Calm (c ∷ a)

Calm-join : (g : Text) (gs : List Text) → All Good (g ∷ gs) → Starts (join b':' (g ∷ gs))
unfolding join
Calm-join [] gs (h, _) = absurd h
Calm-join (c ∷ g) [] ((n, f), _) = (n, Free-Calm c g n f)
Calm-join (c ∷ g) (k ∷ gs) ((n, f), h) = (n, glued (join b':' (k ∷ gs)) (Calm-join k gs h))
  where
    glued : (t : Text) → Starts t → Calm ((c ∷ g) ++ (b':' ∷ t))
    glued [] s = absurd s
    glued (d ∷ t) (m, s) = Calm-glue c g d t n f m s

Starts→Calm : (a : Text) → Starts a → Calm a
Starts→Calm [] s = tt
Starts→Calm (c ∷ a) (n, s) = s

Good→Free : (g : Text) → Good g → Free b':' g
Good→Free [] h = tt
Good→Free (c ∷ g) h = h

pub split-groups :
    (g : Text) (gs : List Text) → All Good (g ∷ gs) → split b':' (join b':' (g ∷ gs)) ≡ g ∷ gs
split-groups g gs h = split-join b':' g gs (All-map_imp Good (Free b':') (g ∷ gs) Good→Free h)

join-Calm : (gs : List Text) → All Good gs → Calm (join b':' gs)
unfolding join
join-Calm [] h = tt
join-Calm (g ∷ gs) h = Starts→Calm (join b':' (g ∷ gs)) (Calm-join g gs h)

groups_of-Starts : (a : Text) → Starts a → groups_of a ≡ split b':' a
unfolding groups_of
groups_of-Starts [] s = absurd s
groups_of-Starts (c ∷ a) s = refl

groups_of-join : (gs : List Text) → All Good gs → groups_of (join b':' gs) ≡ gs
unfolding join groups_of
groups_of-join [] h = refl
groups_of-join (g ∷ gs) h =
    groups_of-Starts (join b':' (g ∷ gs)) (Calm-join g gs h) ∙ split-groups g gs h

zeros-Good : (n : ℕ) → All Good (zeros n)
unfolding zeros
zeros-Good zero = tt
zeros-Good (suc n) = ((ground arith, tt), zeros-Good n)

-- Written out, the address has the groups of its text.
pub normalize_ipv6-full :
    (gs : List Text)
    → 1 ≤ length gs
    → All Good gs
    → normalize_ipv6 (join b':' gs) ≡ join b':' (map pad gs)
unfolding normalize_ipv6 segments
normalize_ipv6-full [] n h = absurd (omega arith)
normalize_ipv6-full (g ∷ gs) n h =
    rw (split_double-whole (join b':' (g ∷ gs)) (join-Calm (g ∷ gs) h), split-groups g gs h) refl

-- The short form of an address.
abbrev pub short_form : List Text → List Text → Text
short_form left right = join b':' left ++ (b':' ∷ b':' ∷ join b':' right)

-- The groups that the short form stands for.
abbrev pub expanded : List Text → List Text → List Text
expanded left right = left ++ (zeros (8 - length left - length right) ++ right)

pub normalize_ipv6-short :
    (left right : List Text)
    → All Good left
    → All Good right
    → normalize_ipv6 (short_form left right) ≡ join b':' (map pad (expanded left right))
unfolding normalize_ipv6 segments
normalize_ipv6-short left right hl hr =
    rw
      (
        split_double-Calm (join b':' left) (join b':' right) (join-Calm left hl),
        split_double-whole (join b':' right) (join-Calm right hr),
        groups_of-join left hl,
        groups_of-join right hr,
      )
      refl

expanded-long :
    (left right : List Text) → length left + length right ≤ 7 → 1 ≤ length (expanded left right)
unfolding zeros
expanded-long left right h = ground (
  arith,
  length-append left (zeros (8 - length left - length right) ++ right),
  length-append (zeros (8 - length left - length right)) right,
  length-zeros (8 - length left - length right),
)
  where
    length-zeros : (n : ℕ) → length (zeros n) ≡ n
    length-zeros zero = refl
    length-zeros (suc n) = omega (arith, length-zeros n)

-- With at most seven groups, none of them empty or with a colon, an address in the short form with
-- `::` is normalized to the same text as the address that has the missing groups written as "0".
pub normalize_ipv6-expanded :
    (left right : List Text)
    → length left + length right ≤ 7
    → All Good left
    → All Good right
    → normalize_ipv6 (short_form left right) ≡ normalize_ipv6 (join b':' (expanded left right))
normalize_ipv6-expanded left right n hl hr =
    normalize_ipv6-short left right hl hr
    ∙ sym (
        normalize_ipv6-full (expanded left right) (expanded-long left right n) (
          All-append Good left (zeros (8 - length left - length right) ++ right) hl (
            All-append Good (zeros (8 - length left - length right)) right
              (zeros-Good (8 - length left - length right)) hr)))
