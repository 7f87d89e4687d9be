-- ===== src/Executor/Filled.antt =====
-- src/executor.ts: no fragment of a message is empty.
use claw_crony.Base.{
  ◌≤◌, inl, inr, Option, none, some, List, [], ◌∷◌, arith, Bool-cases, length, All, All-append,
  WhenSome,
}
use claw_crony.Base.Text.{Text, codes, same, trim}
use claw_crony.Base.Json.{
  Json, Items, Fields, get, null, bool, num, str, arr, obj, nil, cons, end, field,
}
use claw_crony.Executor.Fragments.{
  non_empty, as_string, list_of, format_file, format_data, by_kind, or_fragments,
  extract_text_fragments, extract_items, extract_at, extract_array,
}

module _ (stringify : Json → Text) where
  abbrev pub NonEmpty : List Text → Type 0
  NonEmpty = All (λ t. 1 ≤ length t)

  list_of-NonEmpty : (t : Text) → NonEmpty (list_of (non_empty t))
  unfolding non_empty
  list_of-NonEmpty [] = tt
  list_of-NonEmpty (c ∷ t) = (omega arith, tt)

  as_string-NonEmpty : (v : Option Json) → NonEmpty (list_of (as_string v))
  unfolding as_string
  as_string-NonEmpty none = tt
  as_string-NonEmpty (some null) = tt
  as_string-NonEmpty (some (bool b)) = tt
  as_string-NonEmpty (some (num n)) = tt
  as_string-NonEmpty (some (str t)) = list_of-NonEmpty (trim t)
  as_string-NonEmpty (some (arr items)) = tt
  as_string-NonEmpty (some (obj fs)) = tt

  by_kind-NonEmpty : (fs : Fields) → WhenSome NonEmpty (by_kind stringify fs)
  unfolding by_kind
  by_kind-NonEmpty fs = ground (
    arith,
    as_string-NonEmpty (get (codes "text") fs),
    list_of-NonEmpty (format_file (get (codes "file") fs)),
    list_of-NonEmpty (format_data stringify fs (get (codes "data") fs)),
  )

  or_extract-NonEmpty :
      (o : Option (List Text)) (ts : List Text)
      → WhenSome NonEmpty o
      → NonEmpty ts
      → NonEmpty (or_fragments stringify o ts)
  or_extract-NonEmpty none ts h k = k
  or_extract-NonEmpty (some us) ts h k = h

  mutual
    unfolding extract_text_fragments extract_items extract_at extract_array

    extract_text_extract-NonEmpty : (v : Json) → NonEmpty (extract_text_fragments stringify v)
    extract_text_extract-NonEmpty null = tt
    extract_text_extract-NonEmpty (bool b) = tt
    extract_text_extract-NonEmpty (num n) = tt
    extract_text_extract-NonEmpty (str t) = list_of-NonEmpty (trim t)
    extract_text_extract-NonEmpty (arr items) = extract_items-NonEmpty items
    extract_text_extract-NonEmpty (obj fs) =
        or_extract-NonEmpty (by_kind stringify fs) _ (by_kind-NonEmpty fs) (
          or_extract-NonEmpty (extract_at stringify (codes "parts") fs) _
            (extract_at-NonEmpty (codes "parts") fs)
            (or_extract-NonEmpty (extract_at stringify (codes "content") fs) _
              (extract_at-NonEmpty (codes "content") fs)
              (as_string-NonEmpty (get (codes "text") fs))))

    extract_items-NonEmpty : (items : Items) → NonEmpty (extract_items stringify items)
    extract_items-NonEmpty nil = tt
    extract_items-NonEmpty (cons v items) =
        All-append (λ t. 1 ≤ length t) (extract_text_fragments stringify v)
          (extract_items stringify items) (extract_text_extract-NonEmpty v)
          (extract_items-NonEmpty items)

    extract_at-NonEmpty : (k : Text) (fs : Fields) → WhenSome NonEmpty (extract_at stringify k fs)
    extract_at-NonEmpty k end = tt
    extract_at-NonEmpty k (field j v fs) = elim (Bool-cases (same j k)) [
      | inl e ↦ rw e (extract_array-NonEmpty v)
      | inr e ↦ rw e (extract_at-NonEmpty k fs)
    ]

    extract_array-NonEmpty : (v : Json) → WhenSome NonEmpty (extract_array stringify v)
    extract_array-NonEmpty null = tt
    extract_array-NonEmpty (bool b) = tt
    extract_array-NonEmpty (num n) = tt
    extract_array-NonEmpty (str t) = tt
    extract_array-NonEmpty (obj fs) = tt
    extract_array-NonEmpty (arr nil) = tt
    extract_array-NonEmpty (arr (cons v items)) =
        All-append (λ t. 1 ≤ length t) (extract_text_fragments stringify v)
          (extract_items stringify items) (extract_text_extract-NonEmpty v)
          (extract_items-NonEmpty items)

  -- No fragment is empty.
  pub extract-NonEmpty : (v : Json) → NonEmpty (extract_text_fragments stringify v)
  extract-NonEmpty v = extract_text_extract-NonEmpty v
