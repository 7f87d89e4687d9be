-- ===== src/Retry/Attempts.antt =====
-- `withRetry` of src/peer-retry.ts: how often it calls, and what it returns.
use claw_crony.Base.{
  ℕ, zero, suc, ◌+◌, ◌≤◌, ◌≡◌, refl, subst, ◌⊎◌, inl, inr, String, Bool, true, false, Option, none,
  some, arith, Bool-cases,
}
use claw_crony.Retry.{
  SendResult, RetryConfig, Answer, settle, is_retryable, attempts_from, with_retry,
}

module _ (mentions : String → String → Bool) (fn : ℕ → Answer) (random : ℕ → ℕ)
    (config : RetryConfig) where
  -- The attempts from `first`, `k` of them, are worth another try.
  abbrev pub RetryableFrom : ℕ → ℕ → Type 0
  RetryableFrom first zero = Unit
  RetryableFrom first (suc k) =
      (is_retryable mentions (fn first) ≡ true) × RetryableFrom (first + 1) k

  -- The run ends with the attempt `stop`, which is not worth another try, or is the last.
  abbrev pub EndsWith : ℕ → ℕ → Option SendResult → Type 0
  EndsWith stop last result =
      (result ≡ some (settle (fn stop)))
      × (stop ≤ last)
      × ((is_retryable mentions (fn stop) ≡ false) ⊎ (stop ≡ last))

  later :
      (left first k : ℕ) (run : Option SendResult)
      → EndsWith (first + 1 + k) (first + 1 + left) run
      → EndsWith (first + suc k) (first + suc left) run
  later left first k run h =
      subst (λ a. EndsWith a (first + suc left) run) same
        (subst (λ b. EndsWith (first + 1 + k) b run) last h)
    where
      same : first + 1 + k ≡ first + suc k
      same = omega arith

      last : first + 1 + left ≡ first + suc left
      last = omega arith

  now :
      (first left : ℕ)
      → (is_retryable mentions (fn first) ≡ false) ⊎ (first ≡ first + left)
      → EndsWith (first + 0) (first + left) (some (settle (fn first)))
  now first left h =
      subst (λ a. EndsWith a (first + left) (some (settle (fn first)))) same (refl, omega arith, h)
    where
      same : first ≡ first + 0
      same = omega arith

  again :
      (left first : ℕ) (last : Option SendResult)
      → is_retryable mentions (fn first) ≡ true
      → ((attempts_from mentions fn random config left
            (first + 1)
            (some (settle (fn first)))).result
          ≡ (attempts_from mentions fn random config (suc left) first last).result)
        × ((attempts_from mentions fn random config left
                (first + 1)
                (some (settle (fn first)))).calls
              + 1
            ≡ (attempts_from mentions fn random config (suc left) first last).calls)
  unfolding attempts_from
  again left first last e = rw (attempts_from, e) (refl, refl)

  halt :
      (left first : ℕ) (last : Option SendResult)
      → is_retryable mentions (fn first) ≡ false
      → (some (settle (fn first))
          ≡ (attempts_from mentions fn random config (suc left) first last).result)
        × ((attempts_from mentions fn random config (suc left) first last).calls ≡ 1)
  unfolding attempts_from
  halt left first last e = rw (attempts_from, e) (refl, refl)

  attempts_from-EndsWith :
      (left first : ℕ) (last : Option SendResult)
      → (k : ℕ) × EndsWith
          (first + k)
          (first + left)
          (attempts_from mentions fn random config (suc left) first last).result
        × ((attempts_from mentions fn random config (suc left) first last).calls ≡ k + 1)
        × RetryableFrom first k
  unfolding attempts_from
  attempts_from-EndsWith zero first last = elim (Bool-cases (is_retryable mentions (fn first))) [
    | inl e ↦ (
      0,
      subst (EndsWith (first + 0) (first + 0)) ((again zero first last e).0)
          (now first 0 (inr (omega arith))),
      omega (arith, (again zero first last e).1),
      tt,
    )
    | inr e ↦ (
      0,
      subst (EndsWith (first + 0) (first + 0)) ((halt zero first last e).0) (now first 0 (inl e)),
      (halt zero first last e).1,
      tt,
    )
  ]
  attempts_from-EndsWith (suc left) first last =
      elim (Bool-cases (is_retryable mentions (fn first))) [
        | inl e ↦
            let (k, ends, calls, worth) =
              attempts_from-EndsWith left (first + 1) (some (settle (fn first))) in
            (
              suc k,
              subst (EndsWith (first + suc k) (first + suc left))
                  ((again (suc left) first last e).0) (later left first k _ ends),
              omega (arith, calls, (again (suc left) first last e).1),
              (e, worth),
            )
        | inr e ↦ (
          0,
          subst (EndsWith (first + 0) (first + suc left)) ((halt (suc left) first last e).0)
              (now first (suc left) (inl e)),
          (halt (suc left) first last e).1,
          tt,
        )
      ]

  -- A send returns the result of the attempt with which it ends: the first, of the maximum of retries and one,
  -- that is not worth another try, or else the last of them. It has made the calls up to that one.
  pub with_retry-EndsWith :
      (k : ℕ) × EndsWith
        (0 + k)
        (0 + config.max_retries)
        (with_retry mentions fn random config).result
      × ((with_retry mentions fn random config).calls ≡ k + 1)
      × RetryableFrom 0 k
  unfolding with_retry
  with_retry-EndsWith =
      subst
        (λ n.
          (k : ℕ) × EndsWith (0 + k) (0 + config.max_retries)
            (attempts_from mentions fn random config n 0 none).result
          × ((attempts_from mentions fn random config n 0 none).calls ≡ k + 1)
          × RetryableFrom 0 k)
        next (attempts_from-EndsWith config.max_retries 0 none)
    where
      next : suc config.max_retries ≡ config.max_retries + 1
      next = omega arith
