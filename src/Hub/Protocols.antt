-- ===== src/Hub/Protocols.antt =====
-- src/hub-resolve.ts: the list that `dedupeStrings` makes.
use claw_crony.Base.{
  ◌≤◌, ◌≡◌, refl, sym, subst, ◌↔◌, ◌⊎◌, inl, inr, true, false, ◌||◌, List, [], ◌∷◌, arith, ◌==◌,
  Bool-cases, length, AnyOf,
}
use claw_crony.Base.Text.{Text, same, same_iff, lower, trim}
use claw_crony.Hub.Values.{dedupe_after, dedupe_strings}
use claw_crony.Executor.Response.{has}
use claw_crony.Executor.Answers.{NoDup}

-- The entry in its normal form.
abbrev pub normal : Text → Text
normal v = lower (trim v)

abbrev pub IsNormalOf : List Text → Text → Type 0
IsNormalOf vs t = (1 ≤ length t) × AnyOf (λ v. normal v ≡ t) vs

-- Nothing of the result is seen before, and no text stands in it twice.
dedupe_after-fresh :
    (seen vs : List Text) (t : Text) → has seen t ≡ true → has (dedupe_after seen vs) t ≡ false
unfolding dedupe_after
dedupe_after-fresh seen [] t h = refl
dedupe_after-fresh seen (v ∷ vs) t h =
    elim (Bool-cases (length (normal v) == 0 || has seen (normal v))) [
      | inl e ↦ rw (dedupe_after, e) (dedupe_after-fresh seen vs t h)
      | inr e ↦
          let apart : same (normal v) t ≡ false =
            differs (Bool-cases (same (normal v) t)) (ground arith) in
          let later = dedupe_after-fresh (normal v ∷ seen) vs t (ground arith) in
          rw (dedupe_after, e, apart) later
    ]
  where
    differs :
        ((same (normal v) t ≡ true) ⊎ (same (normal v) t ≡ false))
        → has seen (normal v) ≡ false
        → same (normal v) t ≡ false
    differs (inr d) k = d
    differs (inl d) k = absurd (
        let e = (same_iff (normal v) t).0 d in
        let w : has seen (normal v) ≡ true = subst (λ x. has seen x ≡ true) (sym e) h in
        ground arith)

NoDup-dedupe_after : (seen vs : List Text) → NoDup (dedupe_after seen vs)
unfolding dedupe_after
NoDup-dedupe_after seen [] = tt
NoDup-dedupe_after seen (v ∷ vs) =
    elim (Bool-cases (length (normal v) == 0 || has seen (normal v))) [
      | inl e ↦ rw (dedupe_after, e) (NoDup-dedupe_after seen vs)
      | inr e ↦
          let met : has (normal v ∷ seen) (normal v) ≡ true =
            (let s = (same_iff (normal v) (normal v)).1 refl in ground arith) in
          rw (dedupe_after, e)
            (
              dedupe_after-fresh (normal v ∷ seen) vs (normal v) met,
              NoDup-dedupe_after (normal v ∷ seen) vs,
            )
    ]

dedupe_after-holds :
    (seen vs : List Text) (t : Text)
    → has (dedupe_after seen vs) t ≡ true
    → (has seen t ≡ false) × IsNormalOf vs t
unfolding dedupe_after
dedupe_after-holds seen [] t h = absurd (cc)
dedupe_after-holds seen (v ∷ vs) t h =
    elim (Bool-cases (length (normal v) == 0 || has seen (normal v))) [
      | inl e ↦
          let (f, (l, a)) = dedupe_after-holds seen vs t (rw (dedupe_after, e) at h) in
          (f, (l, inr a))
      | inr e ↦ elim (Bool-cases (same (normal v) t)) [
        | inl s ↦
            let is_t : normal v ≡ t = (same_iff (normal v) t).0 s in
            let new : has seen (normal v) ≡ false = ground arith in
            let long : 1 ≤ length (normal v) = ground arith in
            (
              subst (λ x. has seen x ≡ false) is_t new,
              (subst (λ x. 1 ≤ length x) is_t long, inl is_t),
            )
        | inr s ↦
            let (f, (l, a)) =
              dedupe_after-holds (normal v ∷ seen) vs t (rw (dedupe_after, e, s) at h) in
            (ground arith, (l, inr a))
      ]
    ]

dedupe_after-keeps :
    (seen vs : List Text) (t : Text)
    → has seen t ≡ false
    → 1 ≤ length t
    → AnyOf (λ v. normal v ≡ t) vs
    → has (dedupe_after seen vs) t ≡ true
unfolding dedupe_after
dedupe_after-keeps seen [] t f l a = absurd a
dedupe_after-keeps seen (v ∷ vs) t f l (inl is_t) =
    let new : has seen (normal v) ≡ false = subst (λ x. has seen x ≡ false) (sym is_t) f in
    let long : 1 ≤ length (normal v) = subst (λ x. 1 ≤ length x) (sym is_t) l in
    let e : (length (normal v) == 0 || has seen (normal v)) ≡ false = ground arith in
    let s = (same_iff (normal v) t).1 is_t in rw (dedupe_after, e, s) refl
dedupe_after-keeps seen (v ∷ vs) t f l (inr a) =
    elim (Bool-cases (length (normal v) == 0 || has seen (normal v))) [
      | inl e ↦ rw (dedupe_after, e) (dedupe_after-keeps seen vs t f l a)
      | inr e ↦ elim (Bool-cases (same (normal v) t)) [
        | inl s ↦ rw (dedupe_after, e, s) refl
        | inr s ↦
            rw (dedupe_after, e, s) (dedupe_after-keeps (normal v ∷ seen) vs t (ground arith) l a)
      ]
    ]

-- The list has no text twice, and it has exactly the texts that some given entry becomes when it is trimmed
-- and put into lower case, the empty text left out.
pub dedupe_strings-NoDup :
    (vs : List Text)
    → NoDup (dedupe_strings vs)
      × ((t : Text) → (has (dedupe_strings vs) t ≡ true) ↔ IsNormalOf vs t)
unfolding dedupe_strings
dedupe_strings-NoDup vs = (
  NoDup-dedupe_after [] vs,
  λ t. (λ h. (dedupe_after-holds [] vs t h).1, λ (l, a). dedupe_after-keeps [] vs t refl l a),
)
