-- ===== src/Internal/Inbox/Chunks.antt =====
-- src/internal/transport.ts: which bodies `readBody` gives.
use claw_crony.Base.{
  ℕ, ◌≤◌, ◌≡◌, refl, sym, ap, ◌∙◌, subst, ◌↔◌, inl, inr, false, some, List, [], ◌∷◌, ◌++◌,
  append-nil, append_assoc, arith, ltb, Bool-cases, length, length-append,
}
use claw_crony.Internal.Inbox.{
  BodyEvent, max_body_bytes, read_body, chunk, ended, errored, whole, too_large,
}

-- The octets of the chunks, one behind the other.
abbrev pub octets : List (List ℕ) → List ℕ
octets [] = []
octets (c ∷ cs) = c ++ octets cs

-- The events of the chunks, and then the end and whatever comes after.
abbrev pub arriving : List (List ℕ) → List BodyEvent → List BodyEvent
arriving [] rest = ended ∷ rest
arriving (c ∷ cs) rest = chunk c ∷ arriving cs rest

abbrev pub Arrives : List BodyEvent → List ℕ → Type 0
Arrives events b =
    (cs : List (List ℕ)) × (rest : List BodyEvent) × (events ≡ arriving cs rest) × (b ≡ octets cs)

abbrev pub ArrivesAfter : List ℕ → List BodyEvent → List ℕ → Type 0
ArrivesAfter sofar events b =
    (cs : List (List ℕ)) × (rest : List BodyEvent) × (events ≡ arriving cs rest)
    × (b ≡ sofar ++ octets cs)

whole-eq : (a b : List ℕ) → some (whole a) ≡ some (whole b) → a ≡ b
whole-eq a b h = cc

read_body-whole :
    (sofar : List ℕ) (events : List BodyEvent) (b : List ℕ)
    → length sofar ≤ max_body_bytes
    → read_body sofar events ≡ some (whole b)
    → ArrivesAfter sofar events b × (length b ≤ max_body_bytes)
unfolding read_body
read_body-whole sofar [] b small h = absurd (cc)
read_body-whole sofar (ended ∷ es) b small h =
    let e = whole-eq sofar b h in
    (([], es, refl, sym e ∙ sym (append-nil sofar)), subst (λ x. length x ≤ max_body_bytes) e small)
read_body-whole sofar (errored ∷ es) b small h = absurd (cc)
read_body-whole sofar (chunk c ∷ es) b small h =
    elim (Bool-cases (ltb max_body_bytes (length (sofar ++ c)))) [
      | inl large ↦
          absurd (let k : some too_large ≡ some (whole b) = rw (read_body, large) at h in cc)
      | inr fits ↦
          let rest_whole : read_body (sofar ++ c) es ≡ some (whole b) = rw (read_body, fits) at h in
          let ((cs, rest, e, f), bounded) =
            read_body-whole (sofar ++ c) es b (ground arith) rest_whole in
          ((c ∷ cs, rest, ap (λ x. chunk c ∷ x) e, f ∙ append_assoc sofar c (octets cs)), bounded)
    ]

whole-read_body :
    (sofar : List ℕ) (cs : List (List ℕ)) (rest : List BodyEvent)
    → length (sofar ++ octets cs) ≤ max_body_bytes
    → read_body sofar (arriving cs rest) ≡ some (whole (sofar ++ octets cs))
unfolding read_body
whole-read_body sofar [] rest h = ap (λ x. some (whole x)) (sym (append-nil sofar))
whole-read_body sofar (c ∷ cs) rest h =
    let joined = append_assoc sofar c (octets cs) in
    let small : length ((sofar ++ c) ++ octets cs) ≤ max_body_bytes =
      subst (λ x. length x ≤ max_body_bytes) (sym joined) h in
    let fits : ltb max_body_bytes (length (sofar ++ c)) ≡ false =
      (let e = length-append (sofar ++ c) (octets cs) in ground arith) in
    rw (read_body, fits)
      (whole-read_body (sofar ++ c) cs rest small ∙ ap (λ x. some (whole x)) joined)

-- A body is read exactly when the stream gives its octets in chunks and then its end, with no error before it, and
-- there are at most 2 MiB of them.
pub read_body_iff :
    (events : List BodyEvent) (b : List ℕ)
    → (read_body [] events ≡ some (whole b)) ↔ (Arrives events b × (length b ≤ max_body_bytes))
read_body_iff events b = (
  λ h. read_body-whole [] events b (omega arith) h,
  λ ((cs, rest, e, f), small).
      subst (λ x. read_body [] x ≡ some (whole b)) (sym e)
        (whole-read_body [] cs rest (subst (λ x. length x ≤ max_body_bytes) f small)
          ∙ ap (λ x. some (whole x)) (sym f)),
)
