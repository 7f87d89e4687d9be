-- ===== src/Hub/Peers.antt =====
-- src/hub-resolve.ts: who the peer of a match is.
use claw_crony.Base.{
  ℕ, ◌≡◌, ◌≢◌, inl, inr, true, false, ◌&&◌, ◌||◌, Option, none, some, arith, Bool-cases,
  Option-cases, WhenSome,
}
use claw_crony.Hub.Agents.{HubAgent, Match, requester_role, provider_role, observer_role}
use claw_crony.Hub.Values.{or_else}
use claw_crony.Hub.Resolve.{
  ResolvedAgent, summarize, summarize_hub_agent, is_agent, select_by_role,
  select_local_and_peer_agents, build_generic_match_resolution,
}

-- Neither side of a resolution is the other one.
abbrev pub IsNotAgent : ℕ → Option ResolvedAgent → Type 0
IsNotAgent i resolved = WhenSome (λ agent. agent.agent_id ≢ i) resolved

summarize-IsNotAgent :
    (a : Option HubAgent) (i : ℕ) → is_agent a i ≡ false → IsNotAgent i (summarize_hub_agent a)
unfolding summarize_hub_agent summarize
summarize-IsNotAgent none i h = tt
summarize-IsNotAgent (some agent) i h = λ e. absurd (let e1 : agent.id ≡ i = e in ground arith)

-- The resolved agent, if any, has the id.
abbrev pub IsAgent : ℕ → Option ResolvedAgent → Type 0
IsAgent i resolved = WhenSome (λ agent. agent.agent_id ≡ i) resolved

summarize-IsAgent :
    (a : Option HubAgent) (i : ℕ) → is_agent a i ≡ true → IsAgent i (summarize_hub_agent a)
unfolding summarize_hub_agent summarize
summarize-IsAgent none i h = tt
summarize-IsAgent (some agent) i h = ground arith

either-apart :
    (a b : Option HubAgent) (i : ℕ)
    → is_agent a i ≡ false
    → is_agent b i ≡ false
    → IsNotAgent i (summarize_hub_agent (or_else a b))
either-apart none b i h k = summarize-IsNotAgent b i k
either-apart (some agent) b i h k = summarize-IsNotAgent (some agent) i h

by_role-apart :
    (m : Match) (i : ℕ)
    → is_agent m.requester i ≡ false
    → is_agent m.provider i ≡ false
    → IsNotAgent i (summarize_hub_agent ((select_by_role m).peer))
unfolding select_by_role
by_role-apart m i h k = elim (Option-cases m.caller_role) [
  | inl n ↦ rw (select_by_role, n) (either-apart m.provider m.requester i k h)
  | inr (requester_role, r) ↦ rw (select_by_role, r) (summarize-IsNotAgent m.provider i k)
  | inr (provider_role, r) ↦ rw (select_by_role, r) (summarize-IsNotAgent m.requester i h)
  | inr (observer_role, r) ↦ rw (select_by_role, r) (either-apart m.provider m.requester i k h)
]

-- Where the local agent is not on both sides of a match, the peer of the resolution is never the local agent,
-- whatever role the hub reports. Where it is on one side, it is also the local one of the resolution.
pub build_generic_match_resolution-IsNotAgent :
    (m : Match) (i : ℕ)
    → (is_agent m.requester i && is_agent m.provider i) ≡ false
    → IsNotAgent i ((build_generic_match_resolution m i).peer)
      × ((is_agent m.requester i || is_agent m.provider i) ≡ true
          → IsAgent i ((build_generic_match_resolution m i).local))
unfolding build_generic_match_resolution select_local_and_peer_agents
build_generic_match_resolution-IsNotAgent m i h = elim (Bool-cases (is_agent m.requester i)) [
  | inl r ↦
      let p : is_agent m.provider i ≡ false = ground arith in
      rw (build_generic_match_resolution, select_local_and_peer_agents, r)
        (summarize-IsNotAgent m.provider i p, λ _. summarize-IsAgent m.requester i r)
  | inr r ↦ elim (Bool-cases (is_agent m.provider i)) [
    | inl p ↦
        rw (build_generic_match_resolution, select_local_and_peer_agents, r, p)
          (summarize-IsNotAgent m.requester i r, λ _. summarize-IsAgent m.provider i p)
    | inr p ↦
        rw (build_generic_match_resolution, select_local_and_peer_agents, r, p)
          (by_role-apart m i r p, λ e. absurd (cc))
  ]
]
