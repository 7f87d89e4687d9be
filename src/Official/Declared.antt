-- ===== src/Official/Declared.antt =====
-- src/official-agent-call.ts: which action an object declares, by `normalizeAction`.
use claw_crony.Base.{
  ◌≤◌, ◌≡◌, refl, sym, ap, subst, ◌↔◌, ◌⊎◌, inl, inr, true, false, ◌&&◌, Option, none, some, [],
  ◌∷◌, arith, ltb, ◌==◌, ltb→lt, lt→ltb, Bool-cases, Option-cases, length,
}
use claw_crony.Base.Text.{Text, codes, same, same_iff}
use claw_crony.Base.Json.{Json, Fields, get, obj}
use claw_crony.Executor.Fragments.{as_string}
use claw_crony.Official.Action.{
  Action, upper, lower_value, match_endpoint, with_endpoint, is_method, complete, normalize_action,
}

-- The method and the path are both those of the declaration, or, where it lacks one of them, both those of its endpoint.
abbrev pub IsReached : Text → Option Text → Option Text → Text → Text → Type 0
IsReached declared path endpoint method found =
    ((method ≡ declared) × (path ≡ some found))
    ⊎ (((declared ≡ []) ⊎ (path ≡ none))
        × (t : Text) × (word : Text) × (endpoint ≡ some t)
        × (match_endpoint t ≡ some (word, found))
        × (method ≡ upper word))

-- The action that an object declares.
pub record IsRead (raw : Json) (a : Action) : Type 0 where
  pub fields : Fields
  pub is_object : raw ≡ obj fields
  pub is_named : as_string (get (codes "name") fields) ≡ some a.name
  pub is_rated : a.risk_level ≡ lower_value (get (codes "riskLevel") fields)
  pub has_rating : 1 ≤ length a.risk_level
  pub has_method : (a.method ≡ codes "GET") ⊎ (a.method ≡ codes "POST")
  pub is_reached :
      IsReached
        (upper (lower_value (get (codes "method") fields)))
        (as_string (get (codes "path") fields))
        (as_string (get (codes "endpoint") fields))
        a.method
        a.path

matched :
    (t word rest found : Text)
    → match_endpoint t ≡ some (word, rest)
    → rest ≡ found
    → match_endpoint t ≡ some (word, found)
matched t word rest found m e = subst (λ r. match_endpoint t ≡ some (word, r)) e m

with_endpoint-IsReached :
    (declared : Text) (path endpoint : Option Text) (found : Text)
    → (with_endpoint declared path endpoint).1 ≡ some found
    → IsReached declared path endpoint ((with_endpoint declared path endpoint).0) found
unfolding with_endpoint
with_endpoint-IsReached declared path none found e = inl (refl, e)
with_endpoint-IsReached (c ∷ declared) (some path) (some endpoint) found e =
    let given : (length (c ∷ declared) == 0) ≡ false = ground arith in
    rw given (inl (refl, rw given at e))
with_endpoint-IsReached [] path (some endpoint) found e =
    elim (Option-cases (match_endpoint endpoint)) [
      | inl n ↦ rw n (inl (refl, rw n at e))
      | inr ((word, rest), m) ↦
          let same_rest : rest ≡ found = (let k : some rest ≡ some found = rw m at e in cc) in
          rw m (
            inr
              (inl refl, endpoint, word, refl, matched endpoint word rest found m same_rest, refl))
    ]
with_endpoint-IsReached (c ∷ declared) none (some endpoint) found e =
    let given : (length (c ∷ declared) == 0) ≡ false = ground arith in
    elim (Option-cases (match_endpoint endpoint)) [
      | inl n ↦ absurd (let k : none ≡ some found = rw (given, n) at e in cc)
      | inr ((word, rest), m) ↦
          let same_rest : rest ≡ found =
            (let k : some rest ≡ some found = rw (given, m) at e in cc) in
          rw (given, m)
            (inr
              (inr refl, endpoint, word, refl, matched endpoint word rest found m same_rest, refl))
    ]

IsReached-with_endpoint :
    (declared : Text) (path endpoint : Option Text) (method found : Text)
    → 1 ≤ length method
    → IsReached declared path endpoint method found
    → ((with_endpoint declared path endpoint).0 ≡ method)
      × ((with_endpoint declared path endpoint).1 ≡ some found)
unfolding with_endpoint
IsReached-with_endpoint declared path none method found long (inl (m, p)) = (sym m, p)
IsReached-with_endpoint declared none (some endpoint) method found long (inl (m, p)) = absurd (cc)
IsReached-with_endpoint declared (some path) (some endpoint) method found long (inl (m, p)) =
    let given : (length declared == 0) ≡ false =
      (let n : 1 ≤ length declared = subst (λ t. 1 ≤ length t) m long in ground arith) in
    rw given (sym m, p)
IsReached-with_endpoint declared path endpoint method found long (inr (inl d, t, word, e, m, u)) =
    rw (d, e, m) (sym u, refl)
IsReached-with_endpoint declared path endpoint method found long (inr (inr d, t, word, e, m, u)) =
    elim (Bool-cases (length declared == 0)) [
      | inl b ↦ rw (d, e, m, b) (sym u, refl)
      | inr b ↦ rw (d, e, m, b) (sym u, refl)
    ]

is_method_iff : (m : Text) → (is_method m ≡ true) ↔ ((m ≡ codes "GET") ⊎ (m ≡ codes "POST"))
is_method_iff m = (
  λ e. elim (Bool-cases (same m (codes "GET"))) [
    | inl get ↦ inl ((same_iff m (codes "GET")).0 get)
    | inr other ↦ inr ((same_iff m (codes "POST")).0 (ground arith))
  ],
  λ h. elim h [
    | inl e ↦ let s = (same_iff m (codes "GET")).1 e in ground arith
    | inr e ↦ let s = (same_iff m (codes "POST")).1 e in ground arith
  ],
)

complete-some :
    (name : Option Text) (risk_level method : Text) (path : Option Text) (a : Action)
    → complete name risk_level method path ≡ some a
    → (name ≡ some a.name)
      × (risk_level ≡ a.risk_level)
      × (method ≡ a.method)
      × (path ≡ some a.path)
      × (1 ≤ length risk_level)
      × (is_method method ≡ true)
unfolding complete
complete-some none risk_level method path a e = absurd (cc)
complete-some (some name) risk_level method none a e = absurd (cc)
complete-some (some name) risk_level method (some path) a e =
    elim (Bool-cases (ltb 0 (length risk_level) && is_method method)) [
      | inl ok ↦
          let read : record { name = name; risk_level = risk_level; method = method; path = path }
              ≡ a =
            the_action (rw ok at e) in
          (
            ap (λ (x : Action). some x.name) read,
            ap (λ (x : Action). x.risk_level) read,
            ap (λ (x : Action). x.method) read,
            ap (λ (x : Action). some x.path) read,
            ltb→lt _ _ (ground arith),
            ground arith,
          )
      | inr bad ↦ absurd (let k : none ≡ some a = rw bad at e in cc)
    ]
  where
    the_action : {x y : Action} → some x ≡ some y → x ≡ y
    the_action h = cc

some-complete :
    (a : Action)
    → 1 ≤ length a.risk_level
    → is_method a.method ≡ true
    → complete (some a.name) a.risk_level a.method (some a.path) ≡ some a
unfolding complete
some-complete a n m =
    let long : ltb 0 (length a.risk_level) ≡ true = lt→ltb _ _ n in rw (long, m) refl

pub normalize_action-IsRead :
    (raw : Json) (a : Action) → normalize_action raw ≡ some a → IsRead raw a
unfolding normalize_action
normalize_action-IsRead (obj fields) a e =
    let (name, risk, method, path, long, known) = complete-some _ _ _ _ a e in
    record {
      fields = fields;
      is_object = refl;
      is_named = name;
      is_rated = sym risk;
      has_rating = subst (λ t. 1 ≤ length t) risk long;
      has_method = (is_method_iff a.method).0 (subst (λ t. is_method t ≡ true) method known);
      is_reached =
          subst
            (λ m.
              IsReached (upper (lower_value (get (codes "method") fields)))
                (as_string (get (codes "path") fields)) (as_string (get (codes "endpoint") fields))
                m a.path)
            method (with_endpoint-IsReached _ _ _ a.path path);
    }
normalize_action-IsRead _ a e = absurd (cc)

pub IsRead-normalize_action :
    (raw : Json) (a : Action) → IsRead raw a → normalize_action raw ≡ some a
unfolding normalize_action
IsRead-normalize_action raw a h =
    let known = (is_method_iff a.method).1 h.has_method in
    let long : 1 ≤ length a.method = elim h.has_method [
      | inl e ↦ rw e (omega arith)
      | inr e ↦ rw e (omega arith)
    ] in
    let (method, path) = IsReached-with_endpoint _ _ _ a.method a.path long h.is_reached in
    rw (h.is_object, normalize_action, h.is_named, sym h.is_rated, method, path)
      (some-complete a h.has_rating known)
