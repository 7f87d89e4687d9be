-- ===== src/Official/Clean.antt =====
-- src/official-agent-call.ts: a value without findings.
use claw_crony.Base.{ℕ, ◌+◌, ◌≡◌, refl, ◌↔◌, Bool, true, false, List, [], ◌∷◌, ◌++◌, All}
use claw_crony.Base.Text.{Text}
use claw_crony.Base.Json.{
  Json, Items, Fields, null, bool, num, str, arr, obj, nil, cons, end, field,
}
use claw_crony.Official.Findings.{
  Patterns, Finding, when, finds_phone, finds_payment, finds_order, finds_address, scan_text,
  is_named, named_findings, finds_secret, finds_internal, scan_key, key_path, item_path, scan_value,
  scan_items, scan_fields, unique_after, normal_entries, detect_sensitive,
}

append_nil_iff : (xs ys : List Finding) → ((xs ++ ys) ≡ []) ↔ ((xs ≡ []) × (ys ≡ []))
append_nil_iff [] ys = (λ h. (refl, h), λ h. h.1)
append_nil_iff (x ∷ xs) ys = (λ h. absurd (cc), λ h. absurd (let e = h.0 in cc))

when_nil_iff : (b : Bool) (f : Finding) → (when b f ≡ []) ↔ (b ≡ false)
when_nil_iff true f = (λ h. absurd (cc), λ h. absurd (cc))
when_nil_iff false f = (λ h. refl, λ h. refl)

both : (A B C D : Type 0) → A ↔ C → B ↔ D → (A × B) ↔ (C × D)
both A B C D f g = (λ (a, b). (f.0 a, g.0 b), λ (c, d). (f.1 c, g.1 d))

through : (A B C : Type 0) → A ↔ B → B ↔ C → A ↔ C
through A B C f g = (λ a. g.0 (f.0 a), λ c. f.1 (g.1 c))

-- Two lists one behind the other are empty exactly when both parts of a claim hold.
parts_iff :
    (xs ys : List Finding) (C D : Type 0)
    → (xs ≡ []) ↔ C
    → (ys ≡ []) ↔ D
    → ((xs ++ ys) ≡ []) ↔ (C × D)
parts_iff xs ys C D f g =
    through ((xs ++ ys) ≡ []) ((xs ≡ []) × (ys ≡ [])) (C × D) (append_nil_iff xs ys)
      (both (xs ≡ []) (ys ≡ []) C D f g)

module _ (patterns : Patterns) (forbidden : List Text) where
  -- No test for texts finds anything.
  abbrev pub IsCleanText : Text → Type 0
  IsCleanText t =
      (finds_phone patterns forbidden t ≡ false)
      × ((finds_payment patterns forbidden t ≡ false)
          × ((finds_order patterns forbidden t ≡ false)
              × (finds_address patterns forbidden t ≡ false)))

  -- The key has none of the forbidden names in it, and no test for keys finds anything.
  abbrev pub IsCleanKey : Text → Type 0
  IsCleanKey key =
      All (λ entry. is_named patterns forbidden key entry ≡ false) forbidden
      × ((finds_secret patterns forbidden key ≡ false)
          × ((finds_order patterns forbidden key ≡ false)
              × (finds_internal patterns forbidden key ≡ false)))

  -- At every depth.
  mutual
    pub IsClean : Json → Type 0
    IsClean (str t) = IsCleanText t
    IsClean (arr items) = IsCleanItems items
    IsClean (obj fs) = IsCleanFields fs
    IsClean v = Unit

    pub IsCleanItems : Items → Type 0
    IsCleanItems nil = Unit
    IsCleanItems (cons v items) = IsClean v × IsCleanItems items

    pub IsCleanFields : Fields → Type 0
    IsCleanFields end = Unit
    IsCleanFields (field key v fs) = IsCleanKey key × (IsClean v × IsCleanFields fs)

  scan_text_iff : (t path : Text) → (scan_text patterns forbidden t path ≡ []) ↔ IsCleanText t
  unfolding scan_text
  scan_text_iff t path = parts_iff _ _ _ _ (when_nil_iff (finds_phone patterns forbidden t) _) (
      parts_iff _ _ _ _ (when_nil_iff (finds_payment patterns forbidden t) _) (
        parts_iff _ _ _ _ (when_nil_iff (finds_order patterns forbidden t) _)
          (when_nil_iff (finds_address patterns forbidden t) _)))

  named_findings_iff :
      (es : List Text) (key path : Text)
      → (named_findings patterns forbidden es key path ≡ [])
        ↔ All (λ entry. is_named patterns forbidden key entry ≡ false) es
  named_findings_iff [] key path = (λ h. tt, λ h. refl)
  named_findings_iff (e ∷ es) key path =
      parts_iff _ _ _ _ (when_nil_iff (is_named patterns forbidden key e) _)
        (named_findings_iff es key path)

  scan_key_iff : (key path : Text) → (scan_key patterns forbidden key path ≡ []) ↔ IsCleanKey key
  unfolding scan_key
  scan_key_iff key path = parts_iff _ _ _ _ (named_findings_iff forbidden key path) (
      parts_iff _ _ _ _ (when_nil_iff (finds_secret patterns forbidden key) _) (
        parts_iff _ _ _ _ (when_nil_iff (finds_order patterns forbidden key) _)
          (when_nil_iff (finds_internal patterns forbidden key) _)))

  mutual
    unfolding scan_value IsClean

    scan_value_iff :
        (path : Text) (v : Json) → (scan_value patterns forbidden path v ≡ []) ↔ IsClean v
    scan_value_iff path null = (λ h. tt, λ h. refl)
    scan_value_iff path (bool b) = (λ h. tt, λ h. refl)
    scan_value_iff path (num n) = (λ h. tt, λ h. refl)
    scan_value_iff path (str t) = scan_text_iff t path
    scan_value_iff path (arr items) = scan_items_iff path 0 items
    scan_value_iff path (obj fs) = scan_fields_iff path fs

    scan_items_iff :
        (path : Text) (i : ℕ) (items : Items)
        → (scan_items patterns forbidden path i items ≡ []) ↔ IsCleanItems items
    scan_items_iff path i nil = (λ h. tt, λ h. refl)
    scan_items_iff path i (cons v items) =
        parts_iff _ _ _ _ (scan_value_iff (item_path patterns forbidden path i) v)
          (scan_items_iff path (i + 1) items)

    scan_fields_iff :
        (path : Text) (fs : Fields)
        → (scan_fields patterns forbidden path fs ≡ []) ↔ IsCleanFields fs
    scan_fields_iff path end = (λ h. tt, λ h. refl)
    scan_fields_iff path (field key v fs) =
        parts_iff _ _ _ _ (scan_key_iff key (key_path patterns forbidden path key)) (
          parts_iff _ _ _ _ (scan_value_iff (key_path patterns forbidden path key) v)
            (scan_fields_iff path fs))

unique_after_nil_iff : (fs : List Finding) → (unique_after [] fs ≡ []) ↔ (fs ≡ [])
unfolding unique_after
unique_after_nil_iff [] = (λ h. refl, λ h. refl)
unique_after_nil_iff (f ∷ fs) = (λ h. absurd (cc), λ h. absurd (cc))

-- Nothing sensitive is detected in a value exactly when it is clean: at every depth of its arrays and objects, no
-- test for texts that the agent's forbidden list turns on finds a string, and no key holds a name of that list, in
-- their normal form, or is found by a test for keys.
pub detect_sensitive_iff :
    (patterns : Patterns) (entries : List Text) (v : Json)
    → (detect_sensitive patterns entries v ≡ []) ↔ IsClean patterns (normal_entries entries) v
unfolding detect_sensitive
detect_sensitive_iff patterns entries v =
    through _ _ _ (unique_after_nil_iff (scan_value patterns (normal_entries entries) [] v))
      (scan_value_iff patterns (normal_entries entries) [] v)
