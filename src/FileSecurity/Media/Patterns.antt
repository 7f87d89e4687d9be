-- ===== src/FileSecurity/Media/Patterns.antt =====
-- src/file-security.ts: which media types `validateMimeType` allows.
use claw_crony.Base.{
  ℕ, suc, ◌-◌, ◌≤◌, ◌≡◌, refl, sym, ap, ◌∙◌, subst, ◌↔◌, ◌⊎◌, inl, inr, true, false, List, [], ◌∷◌,
  ◌++◌, arith, ◌==◌, if◌then◌else◌, Bool-cases, length, length-append, take, any, AnyOf,
}
use claw_crony.Base.Text.{
  Text, codes, same, same_iff, starts_with, ends_with, ends_with_append, ends_with_split, lower,
  length-lower, trim, Free,
}
use claw_crony.FileSecurity.Media.{up_to, strip_mime_params, accepts, validate_mime_type}

up_to-Free : (s : ℕ) (a rest : Text) → Free s a → up_to s (a ++ (s ∷ rest)) ≡ a
unfolding up_to
up_to-Free s [] rest f = ground arith
up_to-Free s (c ∷ a) rest (n, f) = ground (arith, up_to-Free s a rest f)

up_to-whole : (s : ℕ) (a : Text) → Free s a → up_to s a ≡ a
unfolding up_to
up_to-whole s [] f = refl
up_to-whole s (c ∷ a) (n, f) = ground (arith, up_to-whole s a f)

-- The parameters behind a semicolon make no difference.
pub strip_mime_params-append :
    (m params : Text) → Free b';' m → strip_mime_params (m ++ (b';' ∷ params)) ≡ strip_mime_params m
unfolding strip_mime_params
strip_mime_params-append m params f =
    ap trim (up_to-Free b';' m params f ∙ sym (up_to-whole b';' m f))

-- The type is the pattern, or the pattern is `kind/*` and the type starts with `kind/`.
abbrev pub Matches : Text → Text → Type 0
Matches normalized p =
    (normalized ≡ p)
    ⊎ ((kind : Text) × (p ≡ kind ++ codes "/*")
        × (starts_with normalized (kind ++ codes "/") ≡ true))

take-all_but :
    (kind : Text) → take (length (kind ++ codes "/*") - 1) (kind ++ codes "/*") ≡ kind ++ codes "/"
take-all_but [] = refl
take-all_but (c ∷ []) = refl
take-all_but (c ∷ d ∷ kind) =
    let e : length ((c ∷ d ∷ kind) ++ codes "/*") - 1
        ≡ suc (length ((d ∷ kind) ++ codes "/*") - 1) =
      omega (arith, length-append kind (codes "/*")) in
    rw e (ap (λ t. c ∷ t) (take-all_but (d ∷ kind)))

accepts_iff : (normalized p : Text) → (accepts normalized p ≡ true) ↔ Matches normalized p
unfolding accepts
accepts_iff normalized p = (forward, backward)
  where
    forward : accepts normalized p ≡ true → Matches normalized p
    forward h = elim (Bool-cases (same normalized p)) [
      | inl s ↦ inl ((same_iff normalized p).0 s)
      | inr s ↦ elim (Bool-cases (ends_with p (codes "/*"))) [
        | inl w ↦
            let (kind, e) = ends_with_split p (codes "/*") w in
            let started : starts_with normalized (take (length p - 1) p) ≡ true =
              rw (accepts, s, w) at h in
            inr (
              kind,
              e,
              subst (λ q. starts_with normalized q ≡ true)
                  (ap (λ t. take (length t - 1) t) e ∙ take-all_but kind) started,
            )
        | inr w ↦ absurd (let f : false ≡ true = rw (accepts, s, w) at h in cc)
      ]
    ]

    backward : Matches normalized p → accepts normalized p ≡ true
    backward (inl e) = rw (accepts, (same_iff normalized p).1 e) refl
    backward (inr (kind, e, st)) =
        let w : ends_with p (codes "/*") ≡ true =
          subst (λ q. ends_with q (codes "/*") ≡ true) (sym e)
            (ends_with_append kind (codes "/*")) in
        let t : starts_with normalized (take (length p - 1) p) ≡ true =
          subst (λ q. starts_with normalized q ≡ true)
            (sym (ap (λ t. take (length t - 1) t) e ∙ take-all_but kind)) st in
        ground arith

any-Matches :
    (normalized : Text) (patterns : List Text)
    → (any (λ p. accepts normalized (lower (strip_mime_params p))) patterns ≡ true)
      ↔ AnyOf (λ p. Matches normalized (lower (strip_mime_params p))) patterns
any-Matches normalized [] = (λ h. absurd (let f : false ≡ true = h in cc), λ h. absurd h)
any-Matches normalized (p ∷ ps) = (
  λ h. elim (Bool-cases (accepts normalized (lower (strip_mime_params p)))) [
    | inl a ↦ inl ((accepts_iff normalized (lower (strip_mime_params p))).0 a)
    | inr a ↦ inr ((any-Matches normalized ps).0 (rw a at h))
  ],
  λ h. elim h [
    | inl m ↦ let a = (accepts_iff normalized (lower (strip_mime_params p))).1 m in rw a refl
    | inr rest ↦ let r = (any-Matches normalized ps).1 rest in ground arith
  ],
)

-- What a media type is asked: without its parameters it is not empty, and it matches a pattern.
abbrev pub IsMimeOf : Text → List Text → Type 0
IsMimeOf m patterns =
    (1 ≤ length (strip_mime_params m))
    × AnyOf (λ p. Matches (lower (strip_mime_params m)) (lower (strip_mime_params p))) patterns

pub validate_mime_type_iff :
    (m : Text) (patterns : List Text) → (validate_mime_type m patterns ≡ true) ↔ IsMimeOf m patterns
unfolding validate_mime_type
validate_mime_type_iff m patterns = (
  λ h. elim (Bool-cases (length (lower (strip_mime_params m)) == 0)) [
    | inl e ↦ absurd (let k : false ≡ true = rw (validate_mime_type, e) at h in cc)
    | inr e ↦ (
      (let l = length-lower (strip_mime_params m) in ground arith),
      (any-Matches (lower (strip_mime_params m)) patterns).0 (rw (validate_mime_type, e) at h),
    )
  ],
  λ (long, some_one).
      let e : (length (lower (strip_mime_params m)) == 0) ≡ false =
        (let l = length-lower (strip_mime_params m) in ground arith) in
      rw (validate_mime_type, e) ((any-Matches (lower (strip_mime_params m)) patterns).1 some_one),
)

-- A type without a semicolon, with or without parameters behind one, is allowed exactly when its
-- trimmed form in lower case is not empty, and it is one of the patterns, or starts with `kind/`
-- for a pattern `kind/*`; the patterns are read without parameters and in lower case too.
pub validate_mime_type-Matches :
    (m params : Text) (patterns : List Text)
    → Free b';' m
    → (validate_mime_type (m ++ (b';' ∷ params)) patterns ≡ validate_mime_type m patterns)
      × ((validate_mime_type m patterns ≡ true) ↔ (
          (1 ≤ length (strip_mime_params m))
          × AnyOf
              (λ p. Matches (lower (strip_mime_params m)) (lower (strip_mime_params p)))
              patterns))
unfolding validate_mime_type
validate_mime_type-Matches m params patterns f = (
  ap
      (λ t.
        if length (lower t) == 0
        then false
        else any (λ p. accepts (lower t) (lower (strip_mime_params p))) patterns)
      (strip_mime_params-append m params f),
  validate_mime_type_iff m patterns,
)
