-- ===== src/ConnectionState/Newest.antt =====
-- `uniqueNewest` of src/connection-state.ts: which ids it keeps, and in which order.
use claw_crony.Base.{
  ℕ, zero, suc, ◌≤◌, ◌<◌, ◌≡◌, ◌≢◌, refl, ap, inl, inr, Bool, true, false, not, ◌||◌, List, [], ◌∷◌,
  map, ◌==◌, All, All-map_imp, All-take, take, filter, length, length-take, arith, Bool-cases,
}
use claw_crony.ConnectionState.{RawId, whole, other, has, unique, unique_newest, max_records}

-- Positive ids without a repetition.
abbrev pub AreDistinct : List ℕ → Type 0
AreDistinct [] = Unit
AreDistinct (n ∷ ns) = (0 < n) × (All (λ m. m ≢ n) ns × AreDistinct ns)

has_cons : (m n : ℕ) (seen : List ℕ) → has m (n ∷ seen) ≡ false → (m ≢ n) × (has m seen ≡ false)
has_cons m n seen h = ground arith

unique-skip :
    (n : ℕ) (seen : List ℕ) (ids : List RawId)
    → ((n == 0) || has n seen) ≡ true
    → unique seen (whole n ∷ ids) ≡ unique seen ids
unfolding unique
unique-skip n seen ids e = rw (unique, e) refl

unique-keep :
    (n : ℕ) (seen : List ℕ) (ids : List RawId)
    → ((n == 0) || has n seen) ≡ false
    → unique seen (whole n ∷ ids) ≡ n ∷ unique (n ∷ seen) ids
unfolding unique
unique-keep n seen ids e = rw (unique, e) refl

unique-fresh : (seen : List ℕ) (ids : List RawId) → All (λ m. has m seen ≡ false) (unique seen ids)
unfolding unique
unique-fresh seen [] = tt
unique-fresh seen (other ∷ ids) = unique-fresh seen ids
unique-fresh seen (whole n ∷ ids) = elim (Bool-cases ((n == 0) || has n seen)) [
  | inl e ↦ rw (unique-skip n seen ids e) (unique-fresh seen ids)
  | inr e ↦ rw (unique-keep n seen ids e) (
    kept e,
    All-map_imp _ (λ m. has m seen ≡ false) _ (λ m h. (has_cons m n seen h).1)
        (unique-fresh (n ∷ seen) ids),
  )
]
  where
    kept : ((n == 0) || has n seen) ≡ false → has n seen ≡ false
    kept h = ground arith

unique-AreDistinct : (seen : List ℕ) (ids : List RawId) → AreDistinct (unique seen ids)
unfolding unique
unique-AreDistinct seen [] = tt
unique-AreDistinct seen (other ∷ ids) = unique-AreDistinct seen ids
unique-AreDistinct seen (whole n ∷ ids) = elim (Bool-cases ((n == 0) || has n seen)) [
  | inl e ↦ rw (unique-skip n seen ids e) (unique-AreDistinct seen ids)
  | inr e ↦ rw (unique-keep n seen ids e) (
    positive e,
    (
      All-map_imp _ (λ m. m ≢ n) _ (λ m h. (has_cons m n seen h).0) (unique-fresh (n ∷ seen) ids),
      unique-AreDistinct (n ∷ seen) ids,
    ),
  )
]
  where
    positive : ((n == 0) || has n seen) ≡ false → 0 < n
    positive h = ground arith

pub take-AreDistinct : (k : ℕ) (ids : List ℕ) → AreDistinct ids → AreDistinct (take k ids)
take-AreDistinct zero ids h = tt
take-AreDistinct (suc k) [] h = tt
take-AreDistinct (suc k) (n ∷ ids) (p, (h, d)) =
    (p, (All-take (λ m. m ≢ n) k ids h, take-AreDistinct k ids d))

pub unique_newest-AreDistinct : (ids : List RawId) → AreDistinct (unique_newest ids)
unfolding unique_newest
unique_newest-AreDistinct ids =
    take-AreDistinct max_records (unique [] ids) (unique-AreDistinct [] ids)

pub length-unique_newest : (ids : List RawId) → length (unique_newest ids) ≤ max_records
unfolding unique_newest
length-unique_newest ids = omega (arith, length-take max_records (unique [] ids))

filter-congr {ℓ} :
    {A : Type ℓ} (p q : A → Bool) (xs : List A)
    → All (λ x. p x ≡ q x) xs
    → filter p xs ≡ filter q xs
filter-congr p q [] h = refl
filter-congr p q (x ∷ xs) (e, h) = ground (arith, filter-congr p q xs h)

unique-filter :
    (seen ids : List ℕ)
    → AreDistinct ids
    → unique seen (map whole ids) ≡ filter (λ m. not (has m seen)) ids
unfolding unique
unique-filter seen [] d = refl
unique-filter seen (n ∷ ids) (p, (h, d)) = ground (
  arith,
  unique-filter seen ids d,
  unique-filter (n ∷ seen) ids d,
  filter-congr (λ m. not (has m (n ∷ seen))) (λ m. not (has m seen)) ids
      (All-map_imp _ _ ids (λ m e. skip m e) h),
)
  where
    skip : (m : ℕ) → m ≢ n → not (has m (n ∷ seen)) ≡ not (has m seen)
    skip m e = ground arith

filter-all {ℓ} : {A : Type ℓ} (xs : List A) → filter (λ x. true) xs ≡ xs
filter-all [] = refl
filter-all (x ∷ xs) = ap (λ ys. x ∷ ys) (filter-all xs)

pub take-length {ℓ} : {A : Type ℓ} (k : ℕ) (xs : List A) → length xs ≤ k → take k xs ≡ xs
take-length zero [] h = refl
take-length zero (x ∷ xs) h = absurd (omega (arith, h))
take-length (suc k) [] h = refl
take-length (suc k) (x ∷ xs) h = ap (λ ys. x ∷ ys) (take-length k xs (omega (arith, h)))

abbrev pub remove {ℓ} : {A : Type ℓ} → (A → ℕ) → ℕ → List A → List A
remove id n = filter (λ m. not (id m == n))

pub unique_newest_self :
    (ids : List ℕ)
    → AreDistinct ids
    → length ids ≤ max_records
    → unique_newest (map whole ids) ≡ ids
unfolding unique_newest
unique_newest_self ids d h =
    rw (unique-filter [] ids d, filter-all ids) (take-length max_records ids h)

All-every : (P : ℕ → Type 0) (xs : List ℕ) → ((x : ℕ) → P x) → All P xs
All-every P [] f = tt
All-every P (x ∷ xs) f = (f x, All-every P xs f)

pub unique_newest-cons :
    (n : ℕ) (ids : List ℕ)
    → 0 < n
    → AreDistinct ids
    → unique_newest (whole n ∷ map whole ids) ≡ take max_records (n ∷ remove (λ m. m) n ids)
unfolding unique_newest unique
unique_newest-cons n ids p d =
    rw (unique-keep n [] (map whole ids) (ground arith), unique-filter (n ∷ []) ids d)
      (ap (λ xs. n ∷ take 99 xs)
        (filter-congr (λ m. not (has m (n ∷ []))) (λ m. not (m == n)) ids (All-every _ ids flip)))
  where
    flip : (m : ℕ) → not (has m (n ∷ [])) ≡ not (m == n)
    flip m = ground arith
