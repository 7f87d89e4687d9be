-- ===== src/Connection/Modes.antt =====
-- src/connection-session.ts: when A2A is recommended.
use claw_crony.Base.{
  ℕ, ◌≡◌, refl, ◌↔◌, inl, inr, Option, none, some, List, [], ◌∷◌, leb, Option-cases, filter, find?,
  All, All-map_imp, count,
}
use claw_crony.Base.Text.{Text}
use claw_crony.Base.Order.{sort_with, All-sort_with, All-sort_with_inv}
use claw_crony.Hub.Agents.{Endpoint, Descriptor}
use claw_crony.Hub.Resolve.{endpoints_of}
use claw_crony.Connection.{
  priority, metadata_agent_card_url, Parsed, derive_agent_card_url, first_some, or_else, is_a2a,
  resolve_a2a_agent_card_url, Plan, plan_of, plan_a2a_adapter, Session, mode_of, build_next_steps,
  build_connection_session_view, available, no_descriptor, no_endpoint, no_card_url, a2a_mode,
  generic_mode, use_a2a,
}

module _ (f : Endpoint → Option Text) where
  first_some-none : (es : List Endpoint) → first_some f es ≡ none → All (λ e. f e ≡ none) es
  first_some-none [] h = tt
  first_some-none (e ∷ es) h = elim (Option-cases (f e)) [
    | inl n ↦ (n, first_some-none es (rw (first_some, n) at h))
    | inr (t, p) ↦ absurd (let k : some t ≡ none = rw (first_some, p) at h in cc)
  ]

  none-first_some : (es : List Endpoint) → All (λ e. f e ≡ none) es → first_some f es ≡ none
  none-first_some [] h = refl
  none-first_some (e ∷ es) (n, h) = rw (first_some, n) (none-first_some es h)

module _ (parse : Text → Option Parsed) where
  -- No URL of an agent card is in the endpoint's metadata, and none comes from its address.
  abbrev pub HasNoCard : Endpoint → Type 0
  HasNoCard e = (metadata_agent_card_url e ≡ none) × (derive_agent_card_url parse e.url ≡ none)

  abbrev sorted : Option Descriptor → List Endpoint
  sorted d = sort_with (λ a b. leb (priority a) (priority b)) (filter is_a2a (endpoints_of d))

  both-none : (a b : Option Text) → or_else a b ≡ none → (a ≡ none) × (b ≡ none)
  both-none none b h = (refl, h)
  both-none (some t) b h = absurd (cc)

  All-zip :
      (P Q : Endpoint → Type 0) (es : List Endpoint) → All P es → All Q es → All (λ e. P e × Q e) es
  All-zip P Q [] p q = tt
  All-zip P Q (e ∷ es) (p, ps) (q, qs) = ((p, q), All-zip P Q es ps qs)

  resolve-none :
      (d : Option Descriptor)
      → (resolve_a2a_agent_card_url parse d ≡ none) ↔ All HasNoCard (filter is_a2a (endpoints_of d))
  unfolding resolve_a2a_agent_card_url
  resolve-none d = (
    λ h.
        let (m, u) = both-none _ _ h in
        All-sort_with_inv (λ a b. leb (priority a) (priority b)) HasNoCard
          (filter is_a2a (endpoints_of d))
          (All-zip (λ e. metadata_agent_card_url e ≡ none)
            (λ e. derive_agent_card_url parse e.url ≡ none) (sorted d)
            (first_some-none metadata_agent_card_url (sorted d) m)
            (first_some-none (λ e. derive_agent_card_url parse e.url) (sorted d) u)),
    λ h.
        let all =
          All-sort_with (λ a b. leb (priority a) (priority b)) HasNoCard
            (filter is_a2a (endpoints_of d)) h in
        rw
          (none-first_some metadata_agent_card_url (sorted d) (
            All-map_imp HasNoCard (λ e. metadata_agent_card_url e ≡ none) (sorted d) (λ e p. p.0)
              all))
          (none-first_some (λ e. derive_agent_card_url parse e.url) (sorted d)
            (All-map_imp HasNoCard (λ e. derive_agent_card_url parse e.url ≡ none) (sorted d)
              (λ e p. p.1) all)),
  )

  plan-mode :
      (e : Option Endpoint) (o : Option Text) → (mode_of (plan_of e o) ≡ generic_mode) ↔ (o ≡ none)
  plan-mode e (some url) = (λ h. absurd (cc), λ h. absurd (cc))
  plan-mode none none = (λ h. refl, λ h. refl)
  plan-mode (some e) none = (λ h. refl, λ h. refl)

  adapter-mode :
      (d : Option Descriptor)
      → (mode_of (plan_a2a_adapter parse d) ≡ generic_mode)
        ↔ All HasNoCard (filter is_a2a (endpoints_of d))
  unfolding plan_a2a_adapter
  adapter-mode none = (λ h. tt, λ h. refl)
  adapter-mode (some d) =
      let step = plan-mode (find? is_a2a d.endpoints) (resolve_a2a_agent_card_url parse (some d)) in
      let last = resolve-none (some d) in (λ h. last.0 (step.0 h), λ h. step.1 (last.1 h))

  -- A session is recommended to go on without A2A exactly when no A2A endpoint of the responder has the URL of
  -- an agent card: none in its metadata, and none that can be derived from its address. The requester's endpoints
  -- have no part in it. The next steps name the card of an endpoint exactly in the other case.
  pub build_connection_session_view-mode :
      (s : Session)
      → (((build_connection_session_view parse s).recommended_mode ≡ generic_mode)
          ↔ All HasNoCard (filter is_a2a (endpoints_of s.responder.descriptor)))
        × (((url : Text) × ((build_connection_session_view parse s).next_steps ≡ use_a2a url))
            ↔ ((build_connection_session_view parse s).recommended_mode ≡ a2a_mode))
  unfolding build_connection_session_view build_next_steps
  build_connection_session_view-mode s = (
    adapter-mode s.responder.descriptor,
    steps-mode (plan_a2a_adapter parse s.responder.descriptor) _ _,
  )
    where
      steps-mode :
          (p : Plan) (protocols : List Text) (count : ℕ)
          → ((url : Text) × (build_next_steps p protocols count ≡ use_a2a url))
            ↔ (mode_of p ≡ a2a_mode)
      steps-mode (available url e) protocols count = (λ h. refl, λ h. (url, refl))
      steps-mode no_descriptor protocols count = (λ (url, h). absurd (cc), λ h. absurd (cc))
      steps-mode no_endpoint protocols count = (λ (url, h). absurd (cc), λ h. absurd (cc))
      steps-mode (no_card_url e) protocols count = (λ (url, h). absurd (cc), λ h. absurd (cc))
