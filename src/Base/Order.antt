-- ===== src/Base/Order.antt =====
-- `Array.prototype.sort` with a comparison function, which the language requires to be stable. The
-- test `le a b` is that the comparison of `a` with `b` is not positive.
use mathlib.Core.Path.{◌≡◌, refl, sym, subst}
use mathlib.Core.Bool.{Bool, true, false, ◌&&◌}
use mathlib.Core.Logic.{◌⊎◌, inl, inr}
use mathlib.Core.List.{List, [], ◌∷◌, Perm}
use mathlib.Core.List.Perm
use mathlib.Core.Option.{some}
use native.Mathlib.Omega.{arith}
use claw_crony.Base.Tests.{if◌then◌else◌, Bool-cases}
use claw_crony.Base.Lists.{All, All-map_imp, find?}

module _ {ℓ} {A : Type ℓ} (le : A → A → Bool) where
  unfoldable pub insert_with : A → List A → List A
  insert_with x [] = x ∷ []
  insert_with x (y ∷ ys) = if le x y then x ∷ y ∷ ys else y ∷ insert_with x ys

  unfoldable pub sort_with : List A → List A
  unfolding insert_with
  sort_with [] = []
  sort_with (x ∷ xs) = insert_with x (sort_with xs)

  -- No element comes after one that it should stand before.
  abbrev pub IsOrdered : List A → Type 0
  IsOrdered [] = Unit
  IsOrdered (x ∷ xs) = All (λ y. le x y ≡ true) xs × IsOrdered xs

  All-insert_with {κ} :
      (P : A → Type κ) (x : A) (xs : List A) → P x → All P xs → All P (insert_with x xs)
  unfolding insert_with
  All-insert_with P x [] p h = (p, tt)
  All-insert_with P x (y ∷ ys) p (q, h) = elim (Bool-cases (le x y)) [
    | inl small ↦ rw small (p, (q, h))
    | inr large ↦ rw large (q, All-insert_with P x ys p h)
  ]

  pub All-sort_with {κ} : (P : A → Type κ) (xs : List A) → All P xs → All P (sort_with xs)
  unfolding sort_with
  All-sort_with P [] h = tt
  All-sort_with P (x ∷ xs) (p, h) = All-insert_with P x (sort_with xs) p (All-sort_with P xs h)

  All-insert_with_inv {κ} :
      (P : A → Type κ) (x : A) (xs : List A) → All P (insert_with x xs) → P x × All P xs
  unfolding insert_with
  All-insert_with_inv P x [] h = h
  All-insert_with_inv P x (y ∷ ys) h = elim (Bool-cases (le x y)) [
    | inl small ↦ rw small at h
    | inr large ↦
        let (q, rest) = rw large at h in
        let (p, others) = All-insert_with_inv P x ys rest in (p, (q, others))
  ]

  pub All-sort_with_inv {κ} : (P : A → Type κ) (xs : List A) → All P (sort_with xs) → All P xs
  unfolding sort_with
  All-sort_with_inv P [] h = tt
  All-sort_with_inv P (x ∷ xs) h =
      let (p, rest) = All-insert_with_inv P x (sort_with xs) h in (p, All-sort_with_inv P xs rest)

  insert_with-perm : (x : A) (xs : List A) → Perm (insert_with x xs) (x ∷ xs)
  unfolding insert_with
  insert_with-perm x [] = Perm.refl (x ∷ [])
  insert_with-perm x (y ∷ ys) = elim (Bool-cases (le x y)) [
    | inl small ↦ rw small (Perm.refl (x ∷ y ∷ ys))
    | inr large ↦ rw large (Perm.trans (Perm.cons y (insert_with-perm x ys)) (Perm.swap x y ys))
  ]

  pub sort_with-perm : (xs : List A) → Perm (sort_with xs) xs
  unfolding sort_with
  sort_with-perm [] = Perm.refl []
  sort_with-perm (x ∷ xs) =
      Perm.trans (insert_with-perm x (sort_with xs)) (Perm.cons x (sort_with-perm xs))

  module _ (trans : (a b c : A) → le a b ≡ true → le b c ≡ true → le a c ≡ true)
      (total : (a b : A) → le a b ≡ false → le b a ≡ true) where
    insert_with-IsOrdered : (x : A) (xs : List A) → IsOrdered xs → IsOrdered (insert_with x xs)
    unfolding insert_with
    insert_with-IsOrdered x [] s = (tt, tt)
    insert_with-IsOrdered x (y ∷ ys) (least, s) = elim (Bool-cases (le x y)) [
      | inl small ↦ rw small (
        (
          small,
          All-map_imp (λ z. le y z ≡ true) (λ z. le x z ≡ true) ys (λ z. trans x y z small) least,
        ),
        (least, s),
      )
      | inr large ↦ rw large (
        All-insert_with (λ z. le y z ≡ true) x ys (total x y large) least,
        insert_with-IsOrdered x ys s,
      )
    ]

    pub sort_with-IsOrdered : (xs : List A) → IsOrdered (sort_with xs)
    unfolding sort_with
    sort_with-IsOrdered [] = tt
    sort_with-IsOrdered (x ∷ xs) = insert_with-IsOrdered x (sort_with xs) (sort_with-IsOrdered xs)

  -- The first element that passes a test on which equal elements agree with each other.
  find?-insert_with :
      (p : A → Bool) (x : A) (xs : List A)
      → ((a b : A) → p a ≡ true → p b ≡ true → le a b ≡ true)
      → find? p (insert_with x xs) ≡ find? p (x ∷ xs)
  unfolding insert_with
  find?-insert_with p x [] level = refl
  find?-insert_with p x (y ∷ ys) level = ground (arith, find?-insert_with p x ys level, level x y)

  -- Stability: among elements of one rank, sorting keeps the order.
  pub find?-sort_with :
      (p : A → Bool) (xs : List A)
      → ((a b : A) → p a ≡ true → p b ≡ true → le a b ≡ true)
      → find? p (sort_with xs) ≡ find? p xs
  unfolding sort_with
  find?-sort_with p [] level = refl
  find?-sort_with p (x ∷ xs) level =
      ground (arith, find?-insert_with p x (sort_with xs) level, find?-sort_with p xs level)

  -- The first element of an ordered list that passes a test stands before all the others that do.
  pub find?-least :
      (p : A → Bool) (xs : List A) (r : A)
      → ((a : A) → le a a ≡ true)
      → IsOrdered xs
      → find? p xs ≡ some r
      → (p r ≡ true) × All (λ q. (p q ≡ false) ⊎ (le r q ≡ true)) xs
  find?-least p [] r same s h = absurd (cc)
  find?-least p (x ∷ xs) r same (least, s) h = elim (Bool-cases (p x)) [
    | inl yes_x ↦
        let e : some x ≡ some r = rw yes_x at h in
        let q : x ≡ r = cc in
        subst (λ z. (p z ≡ true) × All (λ q. (p q ≡ false) ⊎ (le z q ≡ true)) (x ∷ xs)) q
          (
            yes_x,
            (
              inr (same x),
              All-map_imp (λ z. le x z ≡ true) (λ q. (p q ≡ false) ⊎ (le x q ≡ true)) xs
                  (λ z e. inr e) least,
            ),
          )
    | inr no_x ↦ let (pr, rest) = find?-least p xs r same s (rw no_x at h) in (pr, (inl no_x, rest))
  ]

pub find?-narrow {ℓ} :
    {A : Type ℓ} (p q : A → Bool) (xs : List A) (r : A)
    → find? p xs ≡ some r
    → q r ≡ true
    → find? (λ x. p x && q x) xs ≡ some r
find?-narrow p q [] r h k = absurd (cc)
find?-narrow p q (x ∷ xs) r h k = elim (Bool-cases (p x)) [
  | inl yes_x ↦
      let e : some x ≡ some r = rw yes_x at h in
      let s : x ≡ r = cc in
      let t : q x ≡ true = subst (λ z. q z ≡ true) (sym s) k in rw (yes_x, t) e
  | inr no_x ↦ rw no_x (find?-narrow p q xs r (rw no_x at h) k)
]
