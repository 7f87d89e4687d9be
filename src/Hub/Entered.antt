-- ===== src/Hub/Entered.antt =====
-- src/hub-discovery.ts: the results and the history.
use claw_crony.Base.{
  ℕ, ◌≤◌, ◌≡◌, refl, ◌⊎◌, inl, inr, Bool, true, false, Option, none, some, List, [], ◌∷◌, arith,
  ltb, Bool-cases, length, All,
}
use claw_crony.Base.Text.{Text}
use claw_crony.Hub.Agents.{HubAgent, Match}
use claw_crony.Hub.Resolve.{Resolution, build_generic_match_resolution, build_agent_resolution}
use claw_crony.Official.Course.{Settled, resolved, failed}
use claw_crony.Hub.Discovery.{
  Client, Kind, Details, Result, failure, unrecorded, success, matched, perform_generic_hub_match,
  Target, of_match, of_agent, of_client, by_client, by_agent, by_match, by_target, resolve_hub_peer,
  match_failed, resolve_failed, resolution, problem,
}

-- A resolution is made for the client's own agent.
abbrev pub IsFor : Settled Client → Details → Type 0
IsFor (resolved client) (resolution r) = r.local_agent_id ≡ client.agent_id
IsFor (failed message) (resolution r) = ⊥
IsFor client (problem message match_id) = Unit

abbrev pub is_resolution : Details → Bool
is_resolution (resolution r) = true
is_resolution (problem message match_id) = false

-- Nothing is given to search for, or only a client id that no agent of the Hub has. `r` is the answer to that.
abbrev pub IsMissed : Client → Option ℕ → Option ℕ → Option Text → Result → Type 0
IsMissed client match_id agent_id client_id r =
    (match_id ≡ none)
    × (agent_id ≡ none)
    × (((client_id ≡ none) ⊎ (client_id ≡ some [])) × (r ≡ unrecorded "resolve_target_required")
        ⊎ ((id : Text) × (client_id ≡ some id)
            × (client.find_agent_by_client_id id ≡ resolved none)
            × (r ≡ unrecorded "agent_not_found")))

-- What leads to an answer that is not entered.
abbrev pub Missed : Settled Client → Target → Result → Type 0
Missed (failed message) target r = ⊥
Missed (resolved client) target r =
    (target.skills ≡ []) × IsMissed client target.match_id target.agent_id target.client_id r

-- At most one entry, which says whether the result is a resolution, and none only as `M` allows.
pub record IsEntered (client : Settled Client) (M : Type 0) (r : Result) : Type 0 where
  pub is_result : r.ok ≡ is_resolution r.details
  pub one : length r.entries ≤ 1
  pub agrees : All (λ e. e.success ≡ r.ok) r.entries
  pub given : r.ok ≡ true → length r.entries ≡ 1
  pub missed : length r.entries ≡ 0 → M
  pub own : IsFor client r.details

failure-IsEntered :
    {M : Type 0} (c : Settled Client) (k : Kind) (m : Option ℕ) (t : Text)
    → IsEntered c M (failure k m t)
failure-IsEntered (failed x) k m t = record {
  is_result = refl;
  one = omega arith;
  agrees = (refl, tt);
  given = λ h. refl;
  missed = λ h. absurd (omega arith);
  own = tt;
}
failure-IsEntered (resolved x) k m t = record {
  is_result = refl;
  one = omega arith;
  agrees = (refl, tt);
  given = λ h. refl;
  missed = λ h. absurd (omega arith);
  own = tt;
}

success-IsEntered :
    {M : Type 0} (client : Client) (k : Kind) (m : Option ℕ) (r : Resolution)
    → r.local_agent_id ≡ client.agent_id
    → IsEntered (resolved client) M (success k m r)
success-IsEntered client k m r e = record {
  is_result = refl;
  one = omega arith;
  agrees = (refl, tt);
  given = λ h. refl;
  missed = λ h. absurd (omega arith);
  own = e;
}

matched-IsEntered :
    {M : Type 0} (client : Client) (s : Settled Match)
    → IsEntered (resolved client) M (matched client s)
unfolding matched build_generic_match_resolution
matched-IsEntered client (failed t) = failure-IsEntered (resolved client) match_failed none t
matched-IsEntered client (resolved m) = success-IsEntered client _ _ _ refl

perform-IsEntered :
    {M : Type 0} (c : Settled Client) (skills : List Text)
    → IsEntered c M (perform_generic_hub_match c skills)
unfolding perform_generic_hub_match
perform-IsEntered (failed t) skills = failure-IsEntered (failed t) match_failed none t
perform-IsEntered (resolved client) skills = matched-IsEntered client (client.create_match skills)

of_match-IsEntered :
    {M : Type 0} (client : Client) (id : ℕ) (s : Settled Match)
    → IsEntered (resolved client) M (of_match client id s)
unfolding of_match build_generic_match_resolution
of_match-IsEntered client id (failed t) =
    failure-IsEntered (resolved client) resolve_failed (some id) t
of_match-IsEntered client id (resolved m) = success-IsEntered client _ _ _ refl

of_agent-IsEntered :
    {M : Type 0} (client : Client) (s : Settled HubAgent)
    → IsEntered (resolved client) M (of_agent client s)
unfolding of_agent build_agent_resolution
of_agent-IsEntered client (failed t) = failure-IsEntered (resolved client) resolve_failed none t
of_agent-IsEntered client (resolved a) = success-IsEntered client _ _ _ refl

of_client-IsEntered :
    {M : Type 0} (client : Client) (s : Settled (Option HubAgent))
    → (s ≡ resolved none → M)
    → IsEntered (resolved client) M (of_client client s)
unfolding of_client build_agent_resolution
of_client-IsEntered client (failed t) unknown =
    failure-IsEntered (resolved client) resolve_failed none t
of_client-IsEntered client (resolved none) unknown = record {
  is_result = refl;
  one = omega arith;
  agrees = tt;
  given = λ h. absurd (cc);
  missed = λ h. unknown refl;
  own = tt;
}
of_client-IsEntered client (resolved (some a)) unknown = success-IsEntered client _ _ _ refl

required-IsEntered :
    {M : Type 0} (client : Client)
    → M
    → IsEntered (resolved client) M (unrecorded "resolve_target_required")
required-IsEntered client m = record {
  is_result = refl;
  one = omega arith;
  agrees = tt;
  given = λ h. absurd (cc);
  missed = λ h. m;
  own = tt;
}

-- A client id that is not found is answered with that.
of_client-unknown :
    (client : Client) (s : Settled (Option HubAgent))
    → s ≡ resolved none
    → of_client client s ≡ unrecorded "agent_not_found"
unfolding of_client
of_client-unknown client s e = rw (of_client, e) refl

by_match-IsEntered :
    (client : Client) (match_id agent_id : Option ℕ) (client_id : Option Text)
    → IsEntered
        (resolved client)
        (IsMissed client match_id agent_id client_id (by_match client match_id agent_id client_id))
        (by_match client match_id agent_id client_id)
unfolding by_match by_agent by_client
by_match-IsEntered client (some id) agent_id client_id =
    of_match-IsEntered client id (client.get_match id)
by_match-IsEntered client none (some id) client_id = of_agent-IsEntered client (client.get_agent id)
by_match-IsEntered client none none (some (c ∷ t)) =
    let s = client.find_agent_by_client_id (c ∷ t) in
    of_client-IsEntered client s
      (λ e. (refl, refl, inr (c ∷ t, refl, e, of_client-unknown client s e)))
by_match-IsEntered client none none (some []) =
    required-IsEntered client (refl, refl, inl (inr refl, refl))
by_match-IsEntered client none none none =
    required-IsEntered client (refl, refl, inl (inl refl, refl))

IsEntered-weaken :
    {M N : Type 0} (c : Settled Client) (r : Result) → (M → N) → IsEntered c M r → IsEntered c N r
IsEntered-weaken c r f h = record {
  is_result = h.is_result;
  one = h.one;
  agrees = h.agrees;
  given = h.given;
  missed = λ e. f (h.missed e);
  own = h.own;
}

-- The search for a peer makes one entry in the history at most, a success exactly where it gives a resolution, and that is made for
-- the client's own agent. It makes none only where the client is there and no skills, no match and no agent id are given: either no client id
-- is given, and the answer asks for one, or the Hub knows no agent with it, and the answer says so.
pub resolve_hub_peer-IsEntered :
    (c : Settled Client) (target : Target)
    → IsEntered c (Missed c target (resolve_hub_peer c target)) (resolve_hub_peer c target)
unfolding resolve_hub_peer by_target
resolve_hub_peer-IsEntered c target = elim (Bool-cases (ltb 0 (length target.skills))) [
  | inl e ↦ rw (resolve_hub_peer, e) (perform-IsEntered c target.skills)
  | inr e ↦ rw (resolve_hub_peer, e) (target-IsEntered c (no_skills target.skills e))
]
  where
    no_skills : (xs : List Text) → ltb 0 (length xs) ≡ false → xs ≡ []
    no_skills [] e = refl
    no_skills (x ∷ xs) e = absurd (ground arith)

    target-IsEntered :
        (d : Settled Client)
        → target.skills ≡ []
        → IsEntered d (Missed d target (by_target d target)) (by_target d target)
    target-IsEntered (failed t) none_given = failure-IsEntered (failed t) resolve_failed none t
    target-IsEntered (resolved client) none_given =
        IsEntered-weaken (resolved client) _ (λ m. (none_given, m))
          (by_match-IsEntered client target.match_id target.agent_id target.client_id)
