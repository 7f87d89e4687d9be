-- ===== src/Transport/Order.antt =====
-- `orderTransports` of src/transport-fallback.ts.
use claw_crony.Base.{
  ℕ, ◌≡◌, ◌≢◌, ◌≤◌, ◌<◌, ◌∙◌, ◌⊎◌, refl, ap, inl, inr, String, Bool, true, false, not, ◌&&◌, ◌+◌,
  List, [], ◌∷◌, ◌++◌, arith, ◌==◌, if◌then◌else◌, str_eq, eq_iff, filter, All, All-append,
  All-map_imp,
}
use claw_crony.Base.Sort.{insert_by, sort_by, at_key}
use claw_crony.Transport.{Endpoint, is_known, priority, order_transports}

module _ {A : Type 0} (key : A → ℕ) where
  insert_by-front :
      (x : A) (ys : List A) → All (λ y. key x ≤ key y) ys → insert_by key x ys ≡ x ∷ ys
  unfolding insert_by
  insert_by-front x [] h = refl
  insert_by-front x (y ∷ ys) (p, h) = ground arith

  insert_by-later :
      (x : A) (ys zs : List A)
      → All (λ y. key y < key x) ys
      → insert_by key x (ys ++ zs) ≡ ys ++ insert_by key x zs
  unfolding insert_by
  insert_by-later x [] zs h = refl
  insert_by-later x (y ∷ ys) zs (p, h) = ground (arith, insert_by-later x ys zs h)

  All-at_key : (k : ℕ) (xs : List A) → All (λ y. key y ≡ k) (at_key key k xs)
  All-at_key k [] = tt
  All-at_key k (x ∷ xs) = ground (arith, All-at_key k xs)

  -- The lists of the keys 0, 1 and 2.
  abbrev buckets : List A → List A
  buckets xs = at_key key 0 xs ++ (at_key key 1 xs ++ at_key key 2 xs)

  below-All : (k n : ℕ) (xs : List A) → n < k → All (λ y. key y < k) (at_key key n xs)
  below-All k n xs h =
      All-map_imp (λ y. key y ≡ n) (λ y. key y < k) _ (λ y e. omega (arith, e, h)) (All-at_key n xs)

  above-All : (k n : ℕ) (xs : List A) → k ≤ n → All (λ y. k ≤ key y) (at_key key n xs)
  above-All k n xs h =
      All-map_imp (λ y. key y ≡ n) (λ y. k ≤ key y) _ (λ y e. omega (arith, e, h)) (All-at_key n xs)

  insert_by-buckets :
      (x : A) (xs : List A) → key x < 3 → insert_by key x (buckets xs) ≡ buckets (x ∷ xs)
  insert_by-buckets x xs h = elim (three h) [
    | inl e ↦
        rw (test e 0, test e 1, test e 2)
          (insert_by-front x (buckets xs) (
            All-append _ _ _ (above e 0 (omega arith))
              (All-append _ _ _ (above e 1 (omega arith)) (above e 2 (omega arith)))))
    | inr (inl e) ↦
        rw (test e 0, test e 1, test e 2)
          (insert_by-later x (at_key key 0 xs) _ (below e 0 (omega arith))
            ∙ ap (λ ys. at_key key 0 xs ++ ys)
                (insert_by-front x _
                  (All-append _ _ _ (above e 1 (omega arith)) (above e 2 (omega arith)))))
    | inr (inr e) ↦
        rw (test e 0, test e 1, test e 2)
          (insert_by-later x (at_key key 0 xs) _ (below e 0 (omega arith))
            ∙ ap (λ ys. at_key key 0 xs ++ ys)
                (insert_by-later x (at_key key 1 xs) _ (below e 1 (omega arith))
                  ∙ ap (λ ys. at_key key 1 xs ++ ys)
                      (insert_by-front x _ (above e 2 (omega arith)))))
  ]
    where
      three : key x < 3 → (key x ≡ 0) ⊎ ((key x ≡ 1) ⊎ (key x ≡ 2))
      three h = ground arith

      test : {k : ℕ} → key x ≡ k → (n : ℕ) → (key x == n) ≡ (k == n)
      test e n = ap (λ j. j == n) e

      above : {k : ℕ} → key x ≡ k → (n : ℕ) → k ≤ n → All (λ y. key x ≤ key y) (at_key key n xs)
      above e n h = above-All (key x) n xs (omega (arith, e, h))

      below : {k : ℕ} → key x ≡ k → (n : ℕ) → n < k → All (λ y. key y < key x) (at_key key n xs)
      below e n h = below-All (key x) n xs (omega (arith, e, h))

  pub sort_by-buckets : (xs : List A) → All (λ y. key y < 3) xs → sort_by key xs ≡ buckets xs
  unfolding sort_by
  sort_by-buckets [] h = refl
  sort_by-buckets (x ∷ xs) (p, h) =
      ap (insert_by key x) (sort_by-buckets xs h) ∙ insert_by-buckets x xs p

is_known-priority : (e : Endpoint) → is_known e ≡ true → priority e < 3
is_known-priority e h = ground arith

All-known : (xs : List Endpoint) → All (λ e. priority e < 3) (filter is_known xs)
All-known [] = tt
All-known (x ∷ xs) = ground (arith, All-known xs, is_known-priority x)

-- The endpoints of one transport.
abbrev pub of_transport : String → List Endpoint → List Endpoint
of_transport t = filter (λ e. str_eq t e.transport)

-- A text equals one of two different texts at most.
apart : (a b t : String) → a ≢ b → (str_eq a t ≡ false) ⊎ (str_eq b t ≡ false)
apart a b t h = ground (arith, eq_iff a t, eq_iff b t, h)

filter-filter {ℓ} :
    {A : Type ℓ} (p q r : A → Bool) (xs : List A)
    → ((x : A) → (p x && q x) ≡ r x)
    → filter q (filter p xs) ≡ filter r xs
filter-filter p q r [] h = refl
filter-filter p q r (x ∷ xs) h = ground (arith, h x, filter-filter p q r xs h)

-- What `is_known` and `priority` come to, the three comparisons given.
abbrev known : Bool → Bool → Bool → Bool
known a b c = if a then true else if b then true else if c then true else false

abbrev rank : Bool → Bool → Bool → ℕ
rank a b c = if a then 0 else 1 + (if b then 0 else 1 + (if c then 0 else 1 + 0))

rank-first : (a b c : Bool) → (known a b c && (rank a b c == 0)) ≡ a
rank-first a b c = ground arith

rank-second : (a b c : Bool) → (a ≡ false) ⊎ (b ≡ false) → (known a b c && (rank a b c == 1)) ≡ b
rank-second a b c h = ground arith

rank-third :
    (a b c : Bool)
    → (a ≡ false) ⊎ (c ≡ false)
    → (b ≡ false) ⊎ (c ≡ false)
    → (known a b c && (rank a b c == 2)) ≡ c
rank-third a b c h k = ground arith

first-group :
    (xs : List Endpoint) → at_key priority 0 (filter is_known xs) ≡ of_transport "JSONRPC" xs
first-group xs =
    filter-filter is_known (λ e. priority e == 0) _ xs
      (λ e.
        rank-first (str_eq "JSONRPC" e.transport) (str_eq "HTTP+JSON" e.transport)
          (str_eq "GRPC" e.transport))

second-group :
    (xs : List Endpoint) → at_key priority 1 (filter is_known xs) ≡ of_transport "HTTP+JSON" xs
second-group xs =
    filter-filter is_known (λ e. priority e == 1) _ xs
      (λ e.
        rank-second (str_eq "JSONRPC" e.transport) (str_eq "HTTP+JSON" e.transport)
          (str_eq "GRPC" e.transport) (apart "JSONRPC" "HTTP+JSON" e.transport (λ h. cc)))

third-group : (xs : List Endpoint) → at_key priority 2 (filter is_known xs) ≡ of_transport "GRPC" xs
third-group xs =
    filter-filter is_known (λ e. priority e == 2) _ xs
      (λ e.
        rank-third (str_eq "JSONRPC" e.transport) (str_eq "HTTP+JSON" e.transport)
          (str_eq "GRPC" e.transport) (apart "JSONRPC" "GRPC" e.transport (λ h. cc))
          (apart "HTTP+JSON" "GRPC" e.transport (λ h. cc)))

-- The endpoints are ordered by transport, JSON-RPC, then HTTP+JSON, then gRPC, then the others, those of one
-- transport and the others in their given order.
pub order_transports-groups :
    (xs : List Endpoint)
    → order_transports xs
      ≡ (of_transport "JSONRPC" xs ++ (of_transport "HTTP+JSON" xs ++ of_transport "GRPC" xs))
        ++ filter (λ e. not (is_known e)) xs
unfolding order_transports
order_transports-groups xs =
    ap (λ ys. ys ++ filter (λ e. not (is_known e)) xs)
      (sort_by-buckets priority (filter is_known xs) (All-known xs))
    ∙ rw (first-group xs, second-group xs, third-group xs) refl
