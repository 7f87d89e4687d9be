-- ===== src/ConnectionState/Recent.antt =====
-- src/connection-state.ts keeps the latest 100 different records, through saves and loads.
use claw_crony.Base.{
  ℕ, zero, suc, ◌≤◌, ◌<◌, ◌≡◌, ◌≢◌, ◌∙◌, refl, ap, sym, inl, inr, true, some, List, [], ◌∷◌, map,
  ◌==◌, All, All-map_imp, All-take, take, length, length-take, arith, Bool-cases,
}
use claw_crony.ConnectionState.{whole, entry, max_records, unique_newest, without, upsert_newest}
use claw_crony.ConnectionState.Store.{IsIdList}
use claw_crony.ConnectionState.Newest.{AreDistinct, remove, unique_newest-cons, take-AreDistinct}

module _ {A : Type 0} (id : A → ℕ) where
  -- The first of each id.
  abbrev pub dedupe : List A → List A
  dedupe [] = []
  dedupe (x ∷ xs) = x ∷ remove id (id x) (dedupe xs)

  -- No id twice.
  abbrev pub AreApart : List A → Type 0
  AreApart [] = Unit
  AreApart (x ∷ xs) = All (λ y. id y ≢ id x) xs × AreApart xs

  remove-absent : (n : ℕ) (xs : List A) → All (λ y. id y ≢ n) xs → remove id n xs ≡ xs
  remove-absent n [] h = refl
  remove-absent n (x ∷ xs) (p, h) = ground (arith, remove-absent n xs h)

  All-remove : (P : A → Type 0) (n : ℕ) (xs : List A) → All P xs → All P (remove id n xs)
  All-remove P n [] h = tt
  All-remove P n (x ∷ xs) (p, h) = ground (arith, All-remove P n xs h)

  remove-others : (n : ℕ) (xs : List A) → All (λ y. id y ≢ n) (remove id n xs)
  remove-others n [] = tt
  remove-others n (x ∷ xs) = ground (arith, remove-others n xs)

  remove-AreApart : (n : ℕ) (xs : List A) → AreApart xs → AreApart (remove id n xs)
  remove-AreApart n [] h = tt
  remove-AreApart n (x ∷ xs) (p, h) = elim (Bool-cases (id x == n)) [
    | inl e ↦ rw e (remove-AreApart n xs h)
    | inr e ↦ rw e (All-remove (λ y. id y ≢ id x) n xs p, remove-AreApart n xs h)
  ]

  dedupe-AreApart : (xs : List A) → AreApart (dedupe xs)
  dedupe-AreApart [] = tt
  dedupe-AreApart (x ∷ xs) =
      (remove-others (id x) (dedupe xs), remove-AreApart (id x) (dedupe xs) (dedupe-AreApart xs))

  take-take : (k : ℕ) (xs : List A) → take k (take k xs) ≡ take k xs
  take-take zero xs = refl
  take-take (suc k) [] = refl
  take-take (suc k) (x ∷ xs) = ap (λ ys. x ∷ ys) (take-take k xs)

  take-remove-take :
      (k n : ℕ) (xs : List A)
      → AreApart xs
      → take k (remove id n (take (suc k) xs)) ≡ take k (remove id n xs)
  take-remove-take zero n xs h = refl
  take-remove-take (suc k) n [] h = refl
  take-remove-take (suc k) n (x ∷ xs) (p, h) = elim (Bool-cases (id x == n)) [
    | inl e ↦ rw e (
        ap (take (suc k))
          (remove-absent n (take (suc k) xs) (All-take (λ y. id y ≢ n) (suc k) xs (gone e)))
        ∙ (take-take (suc k) xs ∙ sym (ap (take (suc k)) (remove-absent n xs (gone e)))))
    | inr e ↦ rw e (ap (λ ys. x ∷ ys) (take-remove-take k n xs h))
  ]
    where
      gone : (id x == n) ≡ true → All (λ y. id y ≢ n) xs
      gone e = All-map_imp (λ y. id y ≢ id x) (λ y. id y ≢ n) xs (λ y q. ground arith) p

  -- What a list of at most 100 records becomes.
  abbrev pub newest : List A → List A
  newest xs = take max_records (dedupe xs)

  newest-cons :
      (x : A) (xs : List A) → take max_records (x ∷ remove id (id x) (newest xs)) ≡ newest (x ∷ xs)
  newest-cons x xs = ap (λ ys. x ∷ ys) (take-remove-take 99 (id x) (dedupe xs) (dedupe-AreApart xs))

  without-entries :
      (n : ℕ) (xs : List A) → without id n (map entry xs) ≡ some (map entry (remove id n xs))
  unfolding without
  without-entries n [] = refl
  without-entries n (x ∷ xs) =
      rw (without-entries n xs)
        (elim (Bool-cases (id x == n)) [ inl e ↦ rw e refl | inr e ↦ rw e refl ])

  take-map : (k : ℕ) (xs : List A) → take k (map entry xs) ≡ map entry (take k xs)
  take-map zero xs = refl
  take-map (suc k) [] = refl
  take-map (suc k) (x ∷ xs) = ap (λ ys. entry x ∷ ys) (take-map k xs)

  pub upsert_newest-newest :
      (x : A) (xs : List A)
      → upsert_newest id (map entry (newest xs)) x ≡ some (map entry (newest (x ∷ xs)))
  unfolding upsert_newest
  upsert_newest-newest x xs = rw (without-entries (id x) (newest xs)) (
      ap some (
        take-map max_records (x ∷ remove id (id x) (newest xs))
        ∙ ap (map entry) (newest-cons x xs)))

pub length-newest :
    {A : Type 0} (id : A → ℕ) (xs : List A) → length (map entry (newest id xs)) ≤ max_records
length-newest {A} id xs =
    omega (arith, length-entries (newest id xs), length-take max_records (dedupe id xs))
  where
    length-entries : (ys : List A) → length (map entry ys) ≡ length ys
    length-entries [] = refl
    length-entries (y ∷ ys) = ap suc (length-entries ys)

dedupe-AreDistinct : (ids : List ℕ) → All (λ n. 0 < n) ids → AreDistinct (dedupe (λ n. n) ids)
dedupe-AreDistinct ids h =
    join (dedupe (λ n. n) ids) (All-dedupe ids h) (dedupe-AreApart (λ n. n) ids)
  where
    join : (xs : List ℕ) → All (λ n. 0 < n) xs → AreApart (λ n. n) xs → AreDistinct xs
    join [] h k = tt
    join (x ∷ xs) (p, h) (a, k) = (p, (a, join xs h k))

    All-dedupe : (xs : List ℕ) → All (λ n. 0 < n) xs → All (λ n. 0 < n) (dedupe (λ n. n) xs)
    All-dedupe [] h = tt
    All-dedupe (x ∷ xs) (p, h) = (p, All-remove (λ n. n) (λ n. 0 < n) x _ (All-dedupe xs h))

abbrev pub newest_ids : List ℕ → List ℕ
newest_ids = newest (λ n. n)

pub newest_ids-IsIdList : (ids : List ℕ) → All (λ n. 0 < n) ids → IsIdList (newest_ids ids)
newest_ids-IsIdList ids h = (
  take-AreDistinct max_records _ (dedupe-AreDistinct ids h),
  omega (arith, length-take max_records (dedupe (λ n. n) ids)),
)

pub unique_newest-newest :
    (n : ℕ) (ids : List ℕ)
    → 0 < n
    → All (λ m. 0 < m) ids
    → unique_newest (whole n ∷ map whole (newest_ids ids)) ≡ newest_ids (n ∷ ids)
unique_newest-newest n ids p h =
    unique_newest-cons n (newest_ids ids) p
      (take-AreDistinct max_records _ (dedupe-AreDistinct ids h))
    ∙ newest-cons (λ m. m) n ids
