-- ===== src/FileSecurity/Uri/Hosts.antt =====
-- src/file-security.ts: which hosts an allowlist pattern of `matchHostname` stands for.
use claw_crony.Base.{
  List, [], any, AnyOf, ltb, lt→ltb, length, refl, ◌≡◌, sym, subst, ◌↔◌, ◌⊎◌, inl, inr, true, false,
  ◌||◌, ◌∷◌, ◌++◌, ◌∙◌, drop, arith, Bool-cases,
}
use claw_crony.Base.Text.{
  Text, codes, same, same_iff, starts_with, starts_with_split, ends_with, ends_with_append,
  ends_with_split, lower,
}
use claw_crony.FileSecurity.Uri.{match_hostname, is_listed}

-- The host is the domain itself, or a name below it.
abbrev pub IsUnder : Text → Text → Type 0
IsUnder host domain = (host ≡ domain) ⊎ ((labels : Text) × (host ≡ labels ++ (b'.' ∷ domain)))

wildcard : (h base : Text) → ((ends_with h (b'.' ∷ base) || same h base) ≡ true) ↔ IsUnder h base
wildcard h base = (
  λ e. elim (Bool-cases (same h base)) [
    | inl s ↦ inl ((same_iff h base).0 s)
    | inr s ↦ inr (ends_with_split h (b'.' ∷ base) (ground arith))
  ],
  λ u. elim u [
    | inl e ↦ let s : same h base ≡ true = (same_iff h base).1 e in ground arith
    | inr below ↦
        let s : ends_with h (b'.' ∷ base) ≡ true =
          subst (λ x. ends_with x (b'.' ∷ base) ≡ true) (sym below.1)
            (ends_with_append below.0 (b'.' ∷ base)) in
        ground arith
  ],
)

-- Without regard to the case of letters, a pattern `*.domain` matches exactly the domain and the
-- names that end in a dot and the domain, so no sibling that only ends in the same letters; a
-- pattern that does not start with `*.` matches exactly the host that it names.
pub match_hostname-IsUnder :
    (hostname domain pattern : Text)
    → starts_with (lower pattern) (codes "*.") ≡ false
    → ((match_hostname hostname (codes "*." ++ domain) ≡ true)
        ↔ IsUnder (lower hostname) (lower domain))
      × ((match_hostname hostname pattern ≡ true) ↔ (lower hostname ≡ lower pattern))
unfolding match_hostname lower starts_with
match_hostname-IsUnder hostname domain pattern plain = (
  wildcard (lower hostname) (lower domain),
  rw (match_hostname, plain) (same_iff (lower hostname) (lower pattern)),
)

-- A pattern of the list stands for the host: it names it, or it is `*.` and a domain that the host is under,
-- without regard to the case of letters.
pub data Covers (pattern hostname : Text) : Type 0 where
  named : lower pattern ≡ lower hostname → Covers pattern hostname
  below :
      (domain : Text)
      → lower pattern ≡ codes "*." ++ domain
      → IsUnder (lower hostname) domain
      → Covers pattern hostname

-- There is no list, or a pattern of the list stands for the host.
abbrev pub IsListed : List Text → Text → Type 0
IsListed allowlist hostname =
    (allowlist ≡ []) ⊎ AnyOf (λ pattern. Covers pattern hostname) allowlist

match_hostname-Covers :
    (hostname pattern : Text) → match_hostname hostname pattern ≡ true → Covers pattern hostname
unfolding match_hostname
match_hostname-Covers hostname pattern e =
    elim (Bool-cases (starts_with (lower pattern) (codes "*."))) [
      | inl w ↦
          let (domain, d) = starts_with_split (lower pattern) (codes "*.") w in
          below domain d ((wildcard (lower hostname) domain).0 (bare domain d (rw w at e)))
      | inr p ↦ named (sym ((same_iff (lower hostname) (lower pattern)).0 (rw p at e)))
    ]
  where
    bare :
        (domain : Text)
        → lower pattern ≡ codes "*." ++ domain
        → (ends_with (lower hostname) (drop 1 (lower pattern))
            || same (lower hostname) (drop 2 (lower pattern)))
          ≡ true
        → (ends_with (lower hostname) (b'.' ∷ domain) || same (lower hostname) domain) ≡ true
    bare domain d h =
        subst
          (λ t. (ends_with (lower hostname) (drop 1 t) || same (lower hostname) (drop 2 t)) ≡ true)
          d h

wildcard-match_hostname :
    (hostname pattern domain : Text)
    → lower pattern ≡ codes "*." ++ domain
    → IsUnder (lower hostname) domain
    → match_hostname hostname pattern ≡ true
unfolding match_hostname starts_with
wildcard-match_hostname hostname pattern domain d u =
    rw (match_hostname, d) ((wildcard (lower hostname) domain).1 u)

Covers-match_hostname :
    (hostname pattern : Text) → Covers pattern hostname → match_hostname hostname pattern ≡ true
unfolding match_hostname
Covers-match_hostname hostname pattern (below domain d u) =
    wildcard-match_hostname hostname pattern domain d u
Covers-match_hostname hostname pattern (named e) =
    elim (Bool-cases (starts_with (lower pattern) (codes "*."))) [
      | inl w ↦
          let (domain, d) = starts_with_split (lower pattern) (codes "*.") w in
          wildcard-match_hostname hostname pattern domain d (inr (codes "*", sym e ∙ d))
      | inr p ↦ rw (match_hostname, p) ((same_iff (lower hostname) (lower pattern)).1 (sym e))
    ]

any-Covers :
    (hostname : Text) (patterns : List Text)
    → any (λ pattern. match_hostname hostname pattern) patterns ≡ true
    → AnyOf (λ pattern. Covers pattern hostname) patterns
any-Covers hostname [] e = absurd (cc)
any-Covers hostname (p ∷ ps) e = elim (Bool-cases (match_hostname hostname p)) [
  | inl m ↦ inl (match_hostname-Covers hostname p m)
  | inr m ↦ inr (any-Covers hostname ps (rw m at e))
]

Covers-any :
    (hostname : Text) (patterns : List Text)
    → AnyOf (λ pattern. Covers pattern hostname) patterns
    → any (λ pattern. match_hostname hostname pattern) patterns ≡ true
Covers-any hostname [] h = absurd h
Covers-any hostname (p ∷ ps) (inl c) = rw (Covers-match_hostname hostname p c) refl
Covers-any hostname (p ∷ ps) (inr rest) = let e = Covers-any hostname ps rest in ground (arith, e)

is_listed-any :
    (p hostname : Text) (ps : List Text)
    → is_listed (p ∷ ps) hostname ≡ any (λ pattern. match_hostname hostname pattern) (p ∷ ps)
unfolding is_listed
is_listed-any p hostname ps =
    let given : ltb 0 (length (p ∷ ps)) ≡ true = lt→ltb _ _ (omega arith) in
    rw (is_listed, given) refl

pub is_listed_iff :
    (allowlist : List Text) (hostname : Text)
    → (is_listed allowlist hostname ≡ true) ↔ IsListed allowlist hostname
unfolding is_listed
is_listed_iff [] hostname = (λ e. inl refl, λ h. refl)
is_listed_iff (p ∷ ps) hostname = (
  λ e. inr (any-Covers hostname (p ∷ ps) (sym (is_listed-any p hostname ps) ∙ e)),
  λ h. elim h [
    | inl none_given ↦ absurd (cc)
    | inr c ↦ is_listed-any p hostname ps ∙ Covers-any hostname (p ∷ ps) c
  ],
)
