-- ===== src/ConnectionState/Throws.antt =====
-- src/connection-state.ts: when a method that records throws.
use claw_crony.Base.{
  ◌≡◌, ◌↔◌, refl, arith, String, Bool, true, false, Option, none, some, List, [], ◌∷◌, any, ℕ,
  ◌>>=◌, take, map,
}
use claw_crony.ConnectionState.{
  Stored, entry, foreign, nullish, CachedRequest, Raw, without, upsert_newest, normalize_state,
  update, request_id_of, add_request, record_request, unique_newest, whole, State, max_records,
}

abbrev pub is_nullish {ℓ} : {A : Type ℓ} → Stored A → Bool
is_nullish nullish = true
is_nullish _ = false

without-none_iff {ℓ} :
    {A : Type ℓ} (id : A → ℕ) (n : ℕ) (records : List (Stored A))
    → (without id n records ≡ none) ↔ (any is_nullish records ≡ true)
unfolding without
without-none_iff id n [] = (λ h. cc, λ h. cc)
without-none_iff id n (nullish ∷ records) = (λ h. refl, λ h. refl)
without-none_iff id n (foreign ∷ records) = ground (arith, without-none_iff id n records)
without-none_iff id n (entry r ∷ records) = ground (arith, without-none_iff id n records)

then_some-none {ℓ κ} :
    {A : Type ℓ} {B : Type κ} (o : Option A) (f : A → B)
    → ((o >>= (λ a. some (f a))) ≡ none) ↔ (o ≡ none)
then_some-none none f = (λ h. refl, λ h. refl)
then_some-none (some a) f = (λ h. cc, λ h. cc)

chain {ℓ κ μ} : {P : Type ℓ} {Q : Type κ} {R : Type μ} → (P ↔ Q) → (Q ↔ R) → (P ↔ R)
chain f g = (λ p. g.0 (f.0 p), λ r. f.1 (g.1 r))

upsert_newest-none_iff {ℓ} :
    {A : Type ℓ} (id : A → ℕ) (records : List (Stored A)) (r : A)
    → (upsert_newest id records r ≡ none) ↔ (any is_nullish records ≡ true)
unfolding upsert_newest
upsert_newest-none_iff id records r =
    chain (then_some-none (without id (id r) records) (λ rest. take max_records (entry r ∷ rest)))
      (without-none_iff id (id r) records)

add_request-none_iff :
    (r : CachedRequest) (s : State) → (add_request r s ≡ none) ↔ (any is_nullish s.requests ≡ true)
unfolding add_request
add_request-none_iff r s =
    chain
      (then_some-none (upsert_newest request_id_of s.requests r) (λ requests. record s {
        created_request_ids = unique_newest (whole r.id ∷ map whole s.created_request_ids);
        requests = requests;
      }))
      (upsert_newest-none_iff request_id_of s.requests r)

-- Recording a request throws exactly when one of the requests that are loaded, the first 100 of the file,
-- has no properties.
pub record_request-none_iff :
    (r : CachedRequest) (now : String) (file : Option Raw)
    → (record_request r now file ≡ none) ↔ (any is_nullish (normalize_state file).requests ≡ true)
unfolding record_request update
record_request-none_iff r now file =
    chain
      (then_some-none (add_request r (normalize_state file))
        (λ s. record s { updated_at = some now }))
      (add_request-none_iff r (normalize_state file))
