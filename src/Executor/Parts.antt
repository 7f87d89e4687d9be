-- ===== src/Executor/Parts.antt =====
-- src/executor.ts: which file parts of a message are looked at.
use claw_crony.Base.{◌≡◌, refl, ap, ◌↔◌, inl, inr, true, Option, none, some, arith, Bool-cases, All}
use claw_crony.Base.Text.{Text, codes, same_iff}
use claw_crony.Base.Json.{Json, Items, Fields, get, null, bool, num, str, arr, obj, nil, cons}
use claw_crony.Executor.Fragments.{is_text}
use claw_crony.Executor.Response.{items_of}
use claw_crony.Executor.Files.{is_truthy, is_file_part, file_parts_in, extract_file_parts}

-- An object of the kind `file` with a file that is not falsy.
pub record IsFile (fs : Fields) : Type 0 where
  pub kind : get (codes "kind") fs ≡ some (str (codes "file"))
  pub file : (v : Json) × (get (codes "file") fs ≡ some v) × (is_truthy (some v) ≡ true)

-- The property holds of every file among the items, not of what the items hold in turn.
abbrev pub AllFiles : (Fields → Type 0) → Items → Type 0
AllFiles P nil = Unit
AllFiles P (cons (obj fs) items) = (IsFile fs → P fs) × AllFiles P items
AllFiles P (cons v items) = AllFiles P items

-- It holds of the message where that is a file itself, and otherwise of every file among its parts.
abbrev pub AllFileParts : (Fields → Type 0) → Json → Type 0
AllFileParts P (obj fs) =
    (IsFile fs → P fs) × ((IsFile fs → ⊥) → AllFiles P (items_of (get (codes "parts") fs)))
AllFileParts P v = Unit

is_text-eq : (t : Text) (o : Option Json) → is_text t o ≡ true → o ≡ some (str t)
is_text-eq t none h = absurd (cc)
is_text-eq t (some null) h = absurd (cc)
is_text-eq t (some (bool b)) h = absurd (cc)
is_text-eq t (some (num n)) h = absurd (cc)
is_text-eq t (some (str u)) h = ap (λ x. some (str x)) ((same_iff u t).0 h)
is_text-eq t (some (arr items)) h = absurd (cc)
is_text-eq t (some (obj fs)) h = absurd (cc)

is_text_refl : (t : Text) → is_text t (some (str t)) ≡ true
is_text_refl t = (same_iff t t).1 refl

is_truthy-some :
    (o : Option Json) → is_truthy o ≡ true → (v : Json) × (o ≡ some v) × (is_truthy (some v) ≡ true)
is_truthy-some none h = absurd (cc)
is_truthy-some (some v) h = (v, refl, h)

is_file_part_iff : (fs : Fields) → (is_file_part fs ≡ true) ↔ IsFile fs
unfolding is_file_part
is_file_part_iff fs = (
  λ h. record {
    kind = is_text-eq (codes "file") (get (codes "kind") fs) (ground arith);
    file = is_truthy-some (get (codes "file") fs) (ground arith);
  },
  λ h. let (v, e, t) = h.file in rw (is_file_part, h.kind, e, is_text_refl (codes "file"), t) refl,
)

module _ (P : Fields → Type 0) where
  file_parts_in_iff : (items : Items) → All P (file_parts_in items) ↔ AllFiles P items
  unfolding file_parts_in
  file_parts_in_iff nil = (λ h. tt, λ h. tt)
  file_parts_in_iff (cons null items) = file_parts_in_iff items
  file_parts_in_iff (cons (bool b) items) = file_parts_in_iff items
  file_parts_in_iff (cons (num n) items) = file_parts_in_iff items
  file_parts_in_iff (cons (str t) items) = file_parts_in_iff items
  file_parts_in_iff (cons (arr v) items) = file_parts_in_iff items
  file_parts_in_iff (cons (obj fs) items) = elim (Bool-cases (is_file_part fs)) [
    | inl e ↦
        rw (file_parts_in, e)
          (
            λ (p, ps). (λ _. p, (file_parts_in_iff items).0 ps),
            λ (p, ps). (p ((is_file_part_iff fs).0 e), (file_parts_in_iff items).1 ps),
          )
    | inr e ↦
        rw (file_parts_in, e)
          (
            λ ps. (
              λ f. absurd (let t = (is_file_part_iff fs).1 f in cc),
              (file_parts_in_iff items).0 ps,
            ),
            λ (p, ps). (file_parts_in_iff items).1 ps,
          )
  ]

  pub extract_file_parts_iff :
      (message : Json) → All P (extract_file_parts message) ↔ AllFileParts P message
  unfolding extract_file_parts
  extract_file_parts_iff null = (λ h. tt, λ h. tt)
  extract_file_parts_iff (bool b) = (λ h. tt, λ h. tt)
  extract_file_parts_iff (num n) = (λ h. tt, λ h. tt)
  extract_file_parts_iff (str t) = (λ h. tt, λ h. tt)
  extract_file_parts_iff (arr items) = (λ h. tt, λ h. tt)
  extract_file_parts_iff (obj fs) = elim (Bool-cases (is_file_part fs)) [
    | inl e ↦
        rw (extract_file_parts, e)
          (
            λ (p, ps). (λ _. p, λ no. absurd (no ((is_file_part_iff fs).0 e))),
            λ (p, ps). (p ((is_file_part_iff fs).0 e), tt),
          )
    | inr e ↦
        rw (extract_file_parts, e)
          (
            λ ps. (
              λ f. absurd (let t = (is_file_part_iff fs).1 f in cc),
              λ no. (file_parts_in_iff (items_of (get (codes "parts") fs))).0 ps,
            ),
            λ (p, ps).
                (file_parts_in_iff (items_of (get (codes "parts") fs))).1
                  (ps (λ f. let t = (is_file_part_iff fs).1 f in cc)),
          )
  ]
