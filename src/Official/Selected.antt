-- ===== src/Official/Selected.antt =====
-- src/official-agent-call.ts: which endpoint `selectHttpEndpoint` selects.
use claw_crony.Base.{
  ◌≢◌, ◌≤◌, ◌≡◌, refl, sym, ap, ◌∙◌, subst, ◌↔◌, ◌⊎◌, inl, inr, Bool, true, false, ◌&&◌, none, some,
  List, [], ◌∷◌, arith, leb, ◌==◌, leb→le, Bool-cases, filter, find?, All, All-map_imp,
  filter-passes,
}
use claw_crony.Base.Order.{
  sort_with, sort_with-IsOrdered, find?-sort_with, All-sort_with, All-sort_with_inv, find?-least,
  find?-narrow,
}
use claw_crony.Base.Text.{codes, same_iff, includes, lower, trim}
use claw_crony.Hub.Agents.{Endpoint, HubAgent}
use claw_crony.Official.Action.{
  endpoint_priority, is_http_endpoint, endpoints_of, head, select_http_endpoint,
}

-- The protocol is not `openapi`, and the protocol or the transport names HTTP.
abbrev pub SpeaksHttp : Endpoint → Type 0
SpeaksHttp e =
    (lower (trim e.protocol) ≢ codes "openapi")
    × ((includes (lower (trim e.protocol)) (codes "http") ≡ true)
        ⊎ ((includes (lower (trim e.transport)) (codes "http") ≡ true)
            ⊎ (lower (trim e.transport) ≡ codes "https")))

is_http_endpoint-SpeaksHttp : (e : Endpoint) → is_http_endpoint e ≡ true → SpeaksHttp e
unfolding is_http_endpoint
is_http_endpoint-SpeaksHttp e h = (
  λ p. let s = (same_iff (lower (trim e.protocol)) (codes "openapi")).1 p in absurd (ground arith),
  elim (Bool-cases (includes (lower (trim e.protocol)) (codes "http"))) [
    | inl a ↦ inl a
    | inr a ↦ elim (Bool-cases (includes (lower (trim e.transport)) (codes "http"))) [
      | inl b ↦ inr (inl b)
      | inr b ↦ inr (inr ((same_iff (lower (trim e.transport)) (codes "https")).0 (ground arith)))
    ]
  ],
)

-- Of the agent's endpoints that speak HTTP, no one has a lower number of priority, and it is the first with its own.
pub record IsChosen (endpoints : List Endpoint) (r : Endpoint) : Type 0 where
  pub http : SpeaksHttp r
  pub first :
      find? (λ e. is_http_endpoint e && (endpoint_priority e == endpoint_priority r)) endpoints
      ≡ some r
  pub least :
      All
        (λ e. (is_http_endpoint e ≡ false) ⊎ (endpoint_priority r ≤ endpoint_priority e))
        endpoints

module _ {A : Type 0} (p : A → Bool) where
  find?-head : (xs : List A) → All (λ x. p x ≡ true) xs → find? p xs ≡ head xs
  find?-head [] h = refl
  find?-head (x ∷ xs) (e, h) = rw e refl

  find?-filter :
      (q : A → Bool) (xs : List A)
      → find? (λ x. p x && q x) (filter p xs) ≡ find? (λ x. p x && q x) xs
  find?-filter q [] = refl
  find?-filter q (x ∷ xs) = ground (arith, find?-filter q xs)

  All-unfilter :
      (P : A → Type 0) (xs : List A)
      → All (λ x. (p x ≡ false) ⊎ P x) (filter p xs)
      → All (λ x. (p x ≡ false) ⊎ P x) xs
  All-unfilter P [] h = tt
  All-unfilter P (x ∷ xs) h = elim (Bool-cases (p x)) [
    | inl e ↦ let (one, rest) = rw e at h in (one, All-unfilter P xs rest)
    | inr e ↦ (inl e, All-unfilter P xs (rw e at h))
  ]

select_endpoint-IsChosen :
    (endpoints : List Endpoint) (r : Endpoint)
    → head (
        sort_with
          (λ a b. leb (endpoint_priority a) (endpoint_priority b))
          (filter is_http_endpoint endpoints))
      ≡ some r
    → IsChosen endpoints r
select_endpoint-IsChosen endpoints r h = record {
  http =
      is_http_endpoint-SpeaksHttp r
        (find?-least le is_http_endpoint sorted r (λ a. ground arith)
          (sort_with-IsOrdered le (λ a b c s t. ground arith) (λ a b s. ground arith) speaking)
          found).0;
  first =
      sym
        (find?-filter is_http_endpoint (λ e. endpoint_priority e == endpoint_priority r) endpoints)
      ∙ sym (find?-sort_with le level speaking (λ a b s t. level_le a b s t))
      ∙ find?-narrow is_http_endpoint (λ e. endpoint_priority e == endpoint_priority r) sorted r
          found (ground arith);
  least =
      All-unfilter is_http_endpoint (λ e. endpoint_priority r ≤ endpoint_priority e) endpoints
        (All-map_imp _ _ speaking (λ e c. ordered e c)
          (All-sort_with_inv le (λ e. (is_http_endpoint e ≡ false) ⊎ (le r e ≡ true)) speaking
            (find?-least le is_http_endpoint sorted r (λ a. ground arith)
              (sort_with-IsOrdered le (λ a b c s t. ground arith) (λ a b s. ground arith) speaking)
              found).1));
}
  where
    le : Endpoint → Endpoint → Bool
    le a b = leb (endpoint_priority a) (endpoint_priority b)

    level : Endpoint → Bool
    level e = is_http_endpoint e && (endpoint_priority e == endpoint_priority r)

    speaking : List Endpoint
    speaking = filter is_http_endpoint endpoints

    sorted : List Endpoint
    sorted = sort_with le speaking

    level_le : (a b : Endpoint) → level a ≡ true → level b ≡ true → le a b ≡ true
    level_le a b s t = ground arith

    ordered :
        (e : Endpoint)
        → (is_http_endpoint e ≡ false) ⊎ (le r e ≡ true)
        → (is_http_endpoint e ≡ false) ⊎ (endpoint_priority r ≤ endpoint_priority e)
    ordered e (inl n) = inl n
    ordered e (inr l) = inr (leb→le _ _ l)

    found : find? is_http_endpoint sorted ≡ some r
    found =
        find?-head is_http_endpoint sorted (
          All-sort_with le (λ x. is_http_endpoint x ≡ true) speaking
            (filter-passes is_http_endpoint endpoints))
        ∙ h

All-found :
    {A : Type 0} (P : A → Type 0) (q : A → Bool) (xs : List A) (r : A)
    → All P xs
    → find? q xs ≡ some r
    → P r × (q r ≡ true)
All-found P q [] r h e = absurd (cc)
All-found P q (x ∷ xs) r (p, h) e = elim (Bool-cases (q x)) [
  | inl passes ↦ subst (λ z. P z × (q z ≡ true)) (the_element (rw passes at e)) (p, passes)
  | inr fails ↦ All-found P q xs r h (rw fails at e)
]
  where
    the_element : some x ≡ some r → x ≡ r
    the_element k = cc

least_le :
    (endpoints : List Endpoint) (a b : Endpoint)
    → IsChosen endpoints a
    → IsChosen endpoints b
    → endpoint_priority a ≤ endpoint_priority b
least_le endpoints a b h k =
    let (small, http) = All-found _ _ endpoints b h.least k.first in
    elim small [ inl other ↦ absurd (ground arith) | inr e ↦ e ]

-- There is one such endpoint at most.
IsChosen-unique :
    (endpoints : List Endpoint) (a b : Endpoint)
    → IsChosen endpoints a
    → IsChosen endpoints b
    → a ≡ b
IsChosen-unique endpoints a b h k = the_endpoint (sym same_first ∙ k.first)
  where
    level : endpoint_priority b ≡ endpoint_priority a
    level =
        let one = least_le endpoints a b h k in
        let other = least_le endpoints b a k h in omega arith

    same_first :
        find? (λ e. is_http_endpoint e && (endpoint_priority e == endpoint_priority b)) endpoints
        ≡ some a
    same_first =
        subst
          (λ n. find? (λ e. is_http_endpoint e && (endpoint_priority e == n)) endpoints ≡ some a)
          (sym level) h.first

    the_endpoint : some a ≡ some b → a ≡ b
    the_endpoint e = cc

sorted-found :
    (endpoints : List Endpoint) (r : Endpoint)
    → IsChosen endpoints r
    → find?
        (λ e. is_http_endpoint e && (endpoint_priority e == endpoint_priority r))
        (sort_with
          (λ a b. leb (endpoint_priority a) (endpoint_priority b))
          (filter is_http_endpoint endpoints))
      ≡ some r
sorted-found endpoints r h =
    find?-sort_with (λ a b. leb (endpoint_priority a) (endpoint_priority b)) _ _
      (λ a b s t. ground arith)
    ∙ find?-filter is_http_endpoint (λ e. endpoint_priority e == endpoint_priority r) endpoints
    ∙ h.first

pub select_http_endpoint_iff :
    (agent : HubAgent) (r : Endpoint)
    → (select_http_endpoint agent ≡ some r) ↔ IsChosen (endpoints_of agent) r
unfolding select_http_endpoint
select_http_endpoint_iff agent r =
    (select_endpoint-IsChosen (endpoints_of agent) r, λ h. chosen (endpoints_of agent) h _ refl)
  where
    chosen :
        (endpoints : List Endpoint)
        → IsChosen endpoints r
        → (xs : List Endpoint)
        → sort_with
            (λ a b. leb (endpoint_priority a) (endpoint_priority b))
            (filter is_http_endpoint endpoints)
          ≡ xs
        → head xs ≡ some r
    chosen endpoints h [] e =
        let f = sorted-found endpoints r h in absurd (let k : none ≡ some r = rw e at f in cc)
    chosen endpoints h (x ∷ xs) e =
        ap some (IsChosen-unique endpoints x r (select_endpoint-IsChosen endpoints x (ap head e)) h)
