-- ===== src/Hub/Bound.antt =====
-- src/hub-registration.ts: the agent that the plugin is bound to.
use claw_crony.Base.{
  ℕ, zero, suc, ◌+◌, ◌≤◌, ◌<◌, ◌≡◌, refl, sym, ap, ◌∙◌, subst, ◌⊎◌, inl, inr, true, ◌&&◌, Option,
  none, some, arith, ◌==◌, Bool-cases,
}
use claw_crony.Base.Text.{Text}
use claw_crony.Hub.Registration.{
  Outcome, attempts_from, retry_with_backoff, RemoteAgent, has_matching_signing_key, Local,
  Registration, Remote, is_current, is_confirmed, written, finish_with, after_conflict,
  after_register, register, run_hub_registration, done, failed,
}
use claw_crony.Hub.Keys.{HasKey, IsCurrent, has_matching_signing_key-HasKey, is_current-IsCurrent}

Outcome-cases :
    {A : Type 0} (o : Outcome A)
    → ((a : A) × (o ≡ done a)) ⊎ ((status : Option ℕ) × (o ≡ failed status))
Outcome-cases (done a) = inl (a, refl)
Outcome-cases (failed status) = inr (status, refl)

module _ {A : Type 0} (fn : ℕ → Outcome A) (base_delay_ms max_delay_ms : ℕ) where
  -- The attempt k is the first from `first` on that succeeds, or the last that is allowed.
  pub record IsDecisive (first last k : ℕ) : Type 0 where
    pub after : first ≤ k
    pub allowed : k ≤ last
    pub final : (status : Option ℕ) → fn k ≡ failed status → k ≡ last
    pub earlier : (j : ℕ) → first ≤ j → j < k → (status : Option ℕ) × (fn j ≡ failed status)

  attempts_from-IsDecisive :
      (left attempt : ℕ)
      → (k : ℕ) × IsDecisive attempt (attempt + left) k
        × ((attempts_from fn base_delay_ms max_delay_ms left attempt).0 ≡ fn k)
  unfolding attempts_from
  attempts_from-IsDecisive zero attempt = (
    attempt,
    record {
      after = omega arith;
      allowed = omega arith;
      final = λ status e. omega arith;
      earlier = λ j h l. absurd (omega arith);
    },
    refl,
  )
  attempts_from-IsDecisive (suc left) attempt = elim (Outcome-cases (fn attempt)) [
    | inl (a, e) ↦ (
      attempt,
      record {
        after = omega arith;
        allowed = omega arith;
        final = λ status f. absurd (let c : done a ≡ failed status = sym e ∙ f in cc);
        earlier = λ j h l. absurd (omega arith);
      },
      rw (attempts_from, e) refl,
    )
    | inr (status, e) ↦
        let (k, ok, same_result) = attempts_from-IsDecisive left (suc attempt) in
        (
          k,
          record {
            after = (let h = ok.after in omega arith);
            allowed = (let h = ok.allowed in omega arith);
            final = λ s f. (let h = ok.final s f in omega arith);
            earlier = λ j h l. elim (eq_or_less attempt j h) [
              | inl same_number ↦ (status, subst (λ x. fn x ≡ failed status) same_number e)
              | inr less ↦ ok.earlier j less l
            ];
          },
          rw (attempts_from, e) same_result,
        )
  ]
    where
      eq_or_less : (a j : ℕ) → a ≤ j → (a ≡ j) ⊎ (suc a ≤ j)
      eq_or_less a j h = ground arith

  pub retry_with_backoff-IsDecisive :
      (max_retries : ℕ)
      → (k : ℕ) × IsDecisive 0 max_retries k
        × ((retry_with_backoff fn base_delay_ms max_delay_ms max_retries).0 ≡ fn k)
  unfolding retry_with_backoff
  retry_with_backoff-IsDecisive max_retries =
      let same_last : 0 + max_retries ≡ max_retries = omega arith in
      subst
        (λ last.
          (k : ℕ) × IsDecisive 0 last k
          × ((attempts_from fn base_delay_ms max_delay_ms max_retries 0).0 ≡ fn k))
        same_last (attempts_from-IsDecisive max_retries 0)

-- What a binding to the agent rests on: what was stored, confirmed with its key; an attempt to register; or the
-- lookup after a conflict.
pub data IsBound (local : Local) (remote : Remote) (stored : Option Registration) (id : ℕ)
    : Option Registration → Type 0 where
  confirmed :
      (r : Registration) (agent : RemoteAgent) (key : Text)
      → stored ≡ some r
      → IsCurrent local r
      → remote.confirm ≡ done (some agent)
      → r.agent_id ≡ id
      → agent.id ≡ id
      → local.signing_public_key ≡ some key
      → HasKey agent key
      → IsBound local remote stored id none
  registered :
      (k : ℕ) (agent : RemoteAgent)
      → IsDecisive remote.register 1000 10000 0 3 k
      → remote.register k ≡ done agent
      → agent.id ≡ id
      → IsBound local remote stored id (written local remote id)
  conflicted :
      (agent : RemoteAgent)
      → IsDecisive remote.register 1000 10000 0 3 3
      → remote.register 3 ≡ failed (some 409)
      → remote.lookup ≡ done (some agent)
      → agent.id ≡ id
      → IsBound local remote stored id (written local remote id)

bound-eq : (a b : ℕ) (m n : Text) → ◌≡◌ {A = Option (ℕ × Text)} (some (a, m)) (some (b, n)) → a ≡ b
bound-eq a b m n h = cc

module _ (local : Local) (remote : Remote) (stored : Option Registration) (id : ℕ)
    (name : Text) where
  after_conflict-IsBound :
      (o : Outcome (Option RemoteAgent))
      → remote.lookup ≡ o
      → IsDecisive remote.register 1000 10000 0 3 3
      → remote.register 3 ≡ failed (some 409)
      → (after_conflict local remote o).bound ≡ some (id, name)
      → IsBound local remote stored id ((after_conflict local remote o).saved)
  unfolding after_conflict finish_with
  after_conflict-IsBound (failed status) l ok f h = absurd (cc)
  after_conflict-IsBound (done none) l ok f h = absurd (cc)
  after_conflict-IsBound (done (some agent)) l ok f h =
      let e = bound-eq agent.id id local.name name h in
      subst (λ x. IsBound local remote stored id (written local remote x)) (sym e)
        (conflicted agent ok f l e)

  conflict-IsBound :
      (status k : ℕ)
      → IsDecisive remote.register 1000 10000 0 3 k
      → remote.register k ≡ failed (some status)
      → (after_register local remote (failed (some status))).bound ≡ some (id, name)
      → IsBound local remote stored id ((after_register local remote (failed (some status))).saved)
  unfolding after_register
  conflict-IsBound status k ok f h = elim (Bool-cases (status == 409)) [
    | inr other ↦ absurd (
        let n : ◌≡◌ {A = Option (ℕ × Text)} none (some (id, name)) =
          rw (after_register, other) at h in
        cc)
    | inl taken ↦
        let is_409 : status ≡ 409 = ground arith in
        let last : k ≡ 3 = ok.final (some status) f in
        let at_last : remote.register 3 ≡ failed (some 409) =
          subst (λ x. remote.register x ≡ failed (some 409)) last
            (f ∙ ap (λ x. failed (some x)) is_409) in
        let ok3 = subst (λ x. IsDecisive remote.register 1000 10000 0 3 x) last ok in
        rw (after_register, taken)
          (after_conflict-IsBound remote.lookup refl ok3 at_last (rw (after_register, taken) at h))
  ]

  after_register-IsBound :
      (o : Outcome RemoteAgent) (k : ℕ)
      → IsDecisive remote.register 1000 10000 0 3 k
      → remote.register k ≡ o
      → (after_register local remote o).bound ≡ some (id, name)
      → IsBound local remote stored id ((after_register local remote o).saved)
  unfolding after_register finish_with
  after_register-IsBound (done agent) k ok f h =
      let e = bound-eq agent.id id local.name name h in
      subst (λ x. IsBound local remote stored id (written local remote x)) (sym e)
        (registered k agent ok f e)
  after_register-IsBound (failed none) k ok f h = absurd (cc)
  after_register-IsBound (failed (some status)) k ok f h = conflict-IsBound status k ok f h

  register-IsBound :
      (register local remote).bound ≡ some (id, name)
      → IsBound local remote stored id ((register local remote).saved)
  unfolding register
  register-IsBound h =
      let (k, ok, f) = retry_with_backoff-IsDecisive remote.register 1000 10000 3 in
      after_register-IsBound ((retry_with_backoff remote.register 1000 10000 3).0) k ok (sym f) h

stored-confirmed :
    (local : Local) (remote : Remote) (r : Registration) (o : Outcome (Option RemoteAgent))
    → is_confirmed local r o ≡ true
    → (agent : RemoteAgent) × (o ≡ done (some agent))
      × (agent.id ≡ r.agent_id)
      × (has_matching_signing_key agent local.signing_public_key ≡ true)
unfolding is_confirmed
stored-confirmed local remote r (failed status) h = absurd (cc)
stored-confirmed local remote r (done none) h = absurd (cc)
stored-confirmed local remote r (done (some agent)) h = (agent, refl, ground arith, ground arith)

-- Whenever the plugin is bound to an agent of the hub, the stored registration is up to date and the hub confirms its
-- agent with the signing key, and nothing is written; or the first of at most four attempts to register that succeeds gave
-- the agent; or all four failed, the last by a conflict, and the agent is the one that the lookup of the client
-- gives. In the last two cases that agent is written to the file, unless the write fails.
pub run_hub_registration-IsBound :
    (local : Local) (remote : Remote) (stored : Option Registration) (id : ℕ) (name : Text)
    → (run_hub_registration local remote stored).bound ≡ some (id, name)
    → IsBound local remote stored id ((run_hub_registration local remote stored).saved)
unfolding run_hub_registration
run_hub_registration-IsBound local remote none id name h =
    register-IsBound local remote none id name h
run_hub_registration-IsBound local remote (some r) id name h =
    elim (Bool-cases (is_current local r && is_confirmed local r remote.confirm)) [
      | inl e ↦
          let (agent, c, same_id, key) =
            stored-confirmed local remote r remote.confirm (ground arith) in
          let (text, own, has) =
            has_matching_signing_key-HasKey agent local.signing_public_key key in
          let k : ◌≡◌ {A = Option (ℕ × Text)} (some (r.agent_id, r.name)) (some (id, name)) =
            rw (run_hub_registration, e) at h in
          rw (run_hub_registration, e)
            (confirmed r agent text refl (is_current-IsCurrent local r (ground arith)) c
              (bound-eq r.agent_id id r.name name k)
              (same_id ∙ bound-eq r.agent_id id r.name name k) own has)
      | inr e ↦
          rw (run_hub_registration, e)
            (register-IsBound local remote (some r) id name (rw (run_hub_registration, e) at h))
    ]
