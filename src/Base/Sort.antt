-- ===== src/Base/Sort.antt =====
-- `Array.prototype.sort` with a numeric key, which the language requires to be stable.
use Prim.Native.Nat.{ℕ, ◌≤◌, ◌+◌}
use mathlib.Core.Path.{◌≡◌, refl}
use mathlib.Core.Bool.{Bool}
use mathlib.Core.Logic.{inl, inr}
use mathlib.Core.List.{List, [], ◌∷◌, Perm}
use mathlib.Core.List.Perm
use native.Mathlib.Omega.{arith}
use claw_crony.Base.Tests.{leb, ◌==◌, if◌then◌else◌, Bool-cases}
use claw_crony.Base.Lists.{All, All-map_imp, filter, count, bit}

module _ {ℓ} {A : Type ℓ} (key : A → ℕ) where
  unfoldable pub insert_by : A → List A → List A
  insert_by x [] = x ∷ []
  insert_by x (y ∷ ys) = if leb (key x) (key y) then x ∷ y ∷ ys else y ∷ insert_by x ys

  unfoldable pub sort_by : List A → List A
  unfolding insert_by
  sort_by [] = []
  sort_by (x ∷ xs) = insert_by x (sort_by xs)

  abbrev pub IsSorted : List A → Type 0
  IsSorted [] = Unit
  IsSorted (x ∷ xs) = All (λ y. key x ≤ key y) xs × IsSorted xs

  All-insert_by {κ} :
      (P : A → Type κ) (x : A) (xs : List A) → P x → All P xs → All P (insert_by x xs)
  unfolding insert_by
  All-insert_by P x [] p h = (p, tt)
  All-insert_by P x (y ∷ ys) p (q, h) = elim (Bool-cases (leb (key x) (key y))) [
    | inl small ↦ rw small (p, (q, h))
    | inr large ↦ rw large (q, All-insert_by P x ys p h)
  ]

  pub All-sort_by {κ} : (P : A → Type κ) (xs : List A) → All P xs → All P (sort_by xs)
  unfolding sort_by
  All-sort_by P [] h = tt
  All-sort_by P (x ∷ xs) (p, h) = All-insert_by P x (sort_by xs) p (All-sort_by P xs h)

  insert_by-IsSorted : (x : A) (xs : List A) → IsSorted xs → IsSorted (insert_by x xs)
  unfolding insert_by
  insert_by-IsSorted x [] s = (tt, tt)
  insert_by-IsSorted x (y ∷ ys) (least, s) = elim (Bool-cases (leb (key x) (key y))) [
    | inl small ↦ rw small (
      (
        ground arith,
        All-map_imp (λ z. key y ≤ key z) (λ z. key x ≤ key z) ys (λ z h. ground arith) least,
      ),
      (least, s),
    )
    | inr large ↦
        rw large
          (All-insert_by (λ z. key y ≤ key z) x ys (ground arith) least, insert_by-IsSorted x ys s)
  ]

  pub sort_by-IsSorted : (xs : List A) → IsSorted (sort_by xs)
  unfolding sort_by
  sort_by-IsSorted [] = tt
  sort_by-IsSorted (x ∷ xs) = insert_by-IsSorted x (sort_by xs) (sort_by-IsSorted xs)

  insert_by-perm : (x : A) (xs : List A) → Perm (insert_by x xs) (x ∷ xs)
  unfolding insert_by
  insert_by-perm x [] = Perm.refl (x ∷ [])
  insert_by-perm x (y ∷ ys) = elim (Bool-cases (leb (key x) (key y))) [
    | inl small ↦ rw small (Perm.refl (x ∷ y ∷ ys))
    | inr large ↦ rw large (Perm.trans (Perm.cons y (insert_by-perm x ys)) (Perm.swap x y ys))
  ]

  pub sort_by-perm : (xs : List A) → Perm (sort_by xs) xs
  unfolding sort_by
  sort_by-perm [] = Perm.refl []
  sort_by-perm (x ∷ xs) = Perm.trans (insert_by-perm x (sort_by xs)) (Perm.cons x (sort_by-perm xs))

  -- The elements with one key.
  abbrev pub at_key : ℕ → List A → List A
  at_key k = filter (λ x. key x == k)

  at_key-insert_by : (k : ℕ) (x : A) (xs : List A) → at_key k (insert_by x xs) ≡ at_key k (x ∷ xs)
  unfolding insert_by
  at_key-insert_by k x [] = refl
  at_key-insert_by k x (y ∷ ys) = ground (arith, at_key-insert_by k x ys)

  pub at_key-sort_by : (k : ℕ) (xs : List A) → at_key k (sort_by xs) ≡ at_key k xs
  unfolding sort_by
  at_key-sort_by k [] = refl
  at_key-sort_by k (x ∷ xs) = ground (arith, at_key-insert_by k x (sort_by xs), at_key-sort_by k xs)

  count-insert_by :
      (p : A → Bool) (x : A) (xs : List A) → count p (insert_by x xs) ≡ bit (p x) + count p xs
  unfolding insert_by
  count-insert_by p x [] = refl
  count-insert_by p x (y ∷ ys) = ground (arith, count-insert_by p x ys)

  pub count-sort_by : (p : A → Bool) (xs : List A) → count p (sort_by xs) ≡ count p xs
  unfolding sort_by
  count-sort_by p [] = refl
  count-sort_by p (x ∷ xs) = ground (arith, count-insert_by p x (sort_by xs), count-sort_by p xs)
