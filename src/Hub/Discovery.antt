-- ===== src/Hub/Discovery.antt =====
-- src/hub-discovery.ts: matches and agents of the Hub, with the entries of the history. The texts for people
-- are left out.
use claw_crony.Base.{
  ℕ, String, Bool, true, false, Option, none, some, List, [], ◌∷◌, ltb, if◌then◌else◌, length,
}
use claw_crony.Base.Text.{Text, codes}
use claw_crony.Hub.Agents.{HubAgent, Match}
use claw_crony.Hub.Resolve.{
  ResolvedAgent, Resolution, build_generic_match_resolution, build_agent_resolution,
}
use claw_crony.Official.Course.{Settled, resolved, failed}

-- The parts of `HubMatchClient` that are called.
pub record Client : Type 0 where
  pub agent_id : ℕ
  pub get_match : ℕ → Settled Match
  pub get_agent : ℕ → Settled HubAgent
  pub find_agent_by_client_id : Text → Settled (Option HubAgent)
  pub create_match : List Text → Settled Match

pub data Kind : Type 0 where
  match_failed match_resolved resolve_failed resolve_completed : Kind

pub record Entry : Type 0 where
  pub kind : Kind
  pub success : Bool
  pub match_id : Option ℕ
  pub peer : Option Text
  pub reason : Option Text

-- `details`: the resolution, or the error.
pub data Details : Type 0 where
  resolution : Resolution → Details
  problem : Text → Option ℕ → Details

-- `HubDiscoveryResult`, and what is entered in the history.
pub record Result : Type 0 where
  pub ok : Bool
  pub details : Details
  pub entries : List Entry

abbrev pub peer_name : Option ResolvedAgent → Option Text
peer_name none = none
peer_name (some agent) = some agent.name

abbrev pub failure : Kind → Option ℕ → Text → Result
failure kind match_id message = record {
  ok = false;
  details = problem message match_id;
  entries =
      record {
        kind = kind;
        success = false;
        match_id = match_id;
        peer = none;
        reason = some message;
      }
      ∷ [];
}

-- A failure that is not entered.
abbrev pub unrecorded : String → Result
unrecorded message = record { ok = false; details = problem (codes message) none; entries = [] }

abbrev pub success : Kind → Option ℕ → Resolution → Result
success kind match_id r = record {
  ok = true;
  details = resolution r;
  entries =
      record {
        kind = kind;
        success = true;
        match_id = match_id;
        peer = peer_name r.peer;
        reason = none;
      }
      ∷ [];
}

unfoldable pub matched : Client → Settled Match → Result
unfolding build_generic_match_resolution
matched client (failed message) = failure match_failed none message
matched client (resolved m) =
    success match_resolved (some m.id) (build_generic_match_resolution m client.agent_id)

unfoldable pub perform_generic_hub_match : Settled Client → List Text → Result
unfolding matched
perform_generic_hub_match (failed message) skills = failure match_failed none message
perform_generic_hub_match (resolved client) skills = matched client (client.create_match skills)

-- `HubDiscoveryResolveInput`; what only goes on to the Hub is left out.
pub record Target : Type 0 where
  pub agent_id : Option ℕ
  pub client_id : Option Text
  pub match_id : Option ℕ
  pub skills : List Text

unfoldable pub of_match : Client → ℕ → Settled Match → Result
unfolding build_generic_match_resolution
of_match client id (failed message) = failure resolve_failed (some id) message
of_match client id (resolved m) =
    success resolve_completed (some m.id) (build_generic_match_resolution m client.agent_id)

unfoldable pub of_agent : Client → Settled HubAgent → Result
unfolding build_agent_resolution
of_agent client (failed message) = failure resolve_failed none message
of_agent client (resolved agent) =
    success resolve_completed none (build_agent_resolution agent client.agent_id)

unfoldable pub of_client : Client → Settled (Option HubAgent) → Result
unfolding build_agent_resolution
of_client client (failed message) = failure resolve_failed none message
of_client client (resolved none) = unrecorded "agent_not_found"
of_client client (resolved (some agent)) =
    success resolve_completed none (build_agent_resolution agent client.agent_id)

unfoldable pub by_client : Client → Option Text → Result
unfolding of_client
by_client client (some (c ∷ t)) = of_client client (client.find_agent_by_client_id (c ∷ t))
by_client client _ = unrecorded "resolve_target_required"

unfoldable pub by_agent : Client → Option ℕ → Option Text → Result
unfolding of_agent by_client
by_agent client (some id) client_id = of_agent client (client.get_agent id)
by_agent client none client_id = by_client client client_id

unfoldable pub by_match : Client → Option ℕ → Option ℕ → Option Text → Result
unfolding of_match by_agent
by_match client (some id) agent_id client_id = of_match client id (client.get_match id)
by_match client none agent_id client_id = by_agent client agent_id client_id

unfoldable pub by_target : Settled Client → Target → Result
unfolding by_match
by_target (failed message) target = failure resolve_failed none message
by_target (resolved client) target =
    by_match client target.match_id target.agent_id target.client_id

unfoldable pub resolve_hub_peer : Settled Client → Target → Result
unfolding by_target perform_generic_hub_match
resolve_hub_peer client target =
    if ltb 0 (length target.skills)
    then perform_generic_hub_match client target.skills
    else by_target client target
