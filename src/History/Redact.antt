-- ===== src/History/Redact.antt =====
-- src/history.ts: what is left of a value when its secrets are redacted.
use claw_crony.Base.{◌≡◌, refl, ap, inl, inr, Bool, ◌∷◌, if◌then◌else◌, Bool-cases}
use claw_crony.Base.Text.{Text}
use claw_crony.Base.Json.{
  Json, Items, Fields, keys, null, bool, num, str, arr, obj, nil, cons, end, field,
}
use claw_crony.History.{
  is_secret, is_kept, redacted, choose, redact_unknown, redact_items, redact_object,
}

-- The value behind a key, given what is asked of a value that is looked into: behind a secret key
-- there is only the mark, unless it is a ciphertext that the options keep.
abbrev Guarded : Bool → Text → Json → Type 0 → Type 0
Guarded inc key v inside =
    if is_secret key then if is_kept inc key then Unit {0} else v ≡ redacted else inside

-- At every depth that is looked into.
mutual
  pub IsRedacted : Bool → Json → Type 0
  IsRedacted inc (arr items) = IsRedactedItems inc items
  IsRedacted inc (obj fs) = IsRedactedFields inc fs
  IsRedacted inc v = Unit

  pub IsRedactedItems : Bool → Items → Type 0
  IsRedactedItems inc nil = Unit
  IsRedactedItems inc (cons v items) = IsRedacted inc v × IsRedactedItems inc items

  pub IsRedactedFields : Bool → Fields → Type 0
  IsRedactedFields inc end = Unit
  IsRedactedFields inc (field key v fs) =
      Guarded inc key v (IsRedacted inc v) × IsRedactedFields inc fs

choose-Guarded :
    (inc : Bool) (key : Text) (v w : Json)
    → IsRedacted inc w
    → Guarded inc key (choose inc key v w) (IsRedacted inc (choose inc key v w))
unfolding choose
choose-Guarded inc key v w h = elim (Bool-cases (is_secret key)) [
  | inl s ↦ elim (Bool-cases (is_kept inc key)) [
    | inl k ↦ rw (choose, s, k) tt
    | inr k ↦ rw (choose, s, k) refl
  ]
  | inr s ↦ rw (choose, s) h
]

mutual
  unfolding redact_unknown redact_items redact_object IsRedacted IsRedactedItems IsRedactedFields

  redact_unknown-IsRedacted : (inc : Bool) (v : Json) → IsRedacted inc (redact_unknown inc v)
  redact_unknown-IsRedacted inc (arr items) = redact_items-IsRedacted inc items
  redact_unknown-IsRedacted inc (obj fs) = redact_fields-IsRedacted inc fs
  redact_unknown-IsRedacted inc null = tt
  redact_unknown-IsRedacted inc (bool b) = tt
  redact_unknown-IsRedacted inc (num n) = tt
  redact_unknown-IsRedacted inc (str t) = tt

  redact_items-IsRedacted :
      (inc : Bool) (items : Items) → IsRedactedItems inc (redact_items inc items)
  redact_items-IsRedacted inc nil = tt
  redact_items-IsRedacted inc (cons v items) =
      (redact_unknown-IsRedacted inc v, redact_items-IsRedacted inc items)

  redact_fields-IsRedacted :
      (inc : Bool) (fs : Fields) → IsRedactedFields inc (redact_object inc fs)
  redact_fields-IsRedacted inc end = tt
  redact_fields-IsRedacted inc (field key v fs) = (
    choose-Guarded inc key v (redact_unknown inc v) (redact_unknown-IsRedacted inc v),
    redact_fields-IsRedacted inc fs,
  )

choose_again :
    (inc : Bool) (key : Text) (v : Json)
    → redact_unknown inc (redact_unknown inc v) ≡ redact_unknown inc v
    → choose inc key
        (choose inc key v (redact_unknown inc v))
        (redact_unknown inc (choose inc key v (redact_unknown inc v)))
      ≡ choose inc key v (redact_unknown inc v)
unfolding choose
choose_again inc key v again = elim (Bool-cases (is_secret key)) [
  | inl s ↦ elim (Bool-cases (is_kept inc key)) [
    | inl k ↦ rw (choose, s, k) refl
    | inr k ↦ rw (choose, s, k) refl
  ]
  | inr s ↦ rw (choose, s) again
]

mutual
  unfolding redact_unknown redact_items redact_object

  redact_unknown_idem :
      (inc : Bool) (v : Json) → redact_unknown inc (redact_unknown inc v) ≡ redact_unknown inc v
  redact_unknown_idem inc (arr items) = ap (λ x. arr x) (redact_items_idem inc items)
  redact_unknown_idem inc (obj fs) = ap (λ x. obj x) (redact_object_idem inc fs)
  redact_unknown_idem inc null = refl
  redact_unknown_idem inc (bool b) = refl
  redact_unknown_idem inc (num n) = refl
  redact_unknown_idem inc (str t) = refl

  redact_items_idem :
      (inc : Bool) (items : Items)
      → redact_items inc (redact_items inc items) ≡ redact_items inc items
  redact_items_idem inc nil = refl
  redact_items_idem inc (cons v items) =
      rw (redact_unknown_idem inc v, redact_items_idem inc items) refl

  redact_object_idem :
      (inc : Bool) (fs : Fields) → redact_object inc (redact_object inc fs) ≡ redact_object inc fs
  redact_object_idem inc end = refl
  redact_object_idem inc (field key v fs) =
      rw (choose_again inc key v (redact_unknown_idem inc v), redact_object_idem inc fs) refl

keys-redact_object : (inc : Bool) (fs : Fields) → keys (redact_object inc fs) ≡ keys fs
unfolding redact_object
keys-redact_object inc end = refl
keys-redact_object inc (field key v fs) = ap (λ ks. key ∷ ks) (keys-redact_object inc fs)

-- A redacted object has its keys in their order. At every depth, the value behind a key that
-- contains one of the secret names, in any case, is only the mark; but a value behind a key with
-- `ciphertext` stands as it was when encrypted payloads are to be included. To redact it again
-- changes nothing.
pub redact_object-IsRedacted :
    (inc : Bool) (fs : Fields)
    → IsRedactedFields inc (redact_object inc fs)
      × (keys (redact_object inc fs) ≡ keys fs)
      × (redact_object inc (redact_object inc fs) ≡ redact_object inc fs)
redact_object-IsRedacted inc fs =
    (redact_fields-IsRedacted inc fs, keys-redact_object inc fs, redact_object_idem inc fs)
