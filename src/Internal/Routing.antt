-- ===== src/Internal/Routing.antt =====
-- src/internal/routing.ts: the agent that handles a message.
pub mod Removal
mod Tests
use claw_crony.Base.{
  String, Bool, true, false, not, Option, none, some, List, [], ◌∷◌, ◌++◌, if◌then◌else◌, str_eq,
  find?, filter,
}
use claw_crony.Internal.Envelope.{Destination, is_present}

-- `RoutingRule`
pub record Rule : Type 0 where
  pub route_key : String
  pub agent_id : String

pub data MatchedBy : Type 0 where
  by_agent_id by_route_key by_default : MatchedBy

-- `RouteResult`
pub record Route : Type 0 where
  pub agent_id : String
  pub matched_by : MatchedBy

pub record Router : Type 0 where
  pub rules : List Rule
  pub default_agent_id : Option String

-- A text that is there and not empty.
abbrev pub truthy : Option String → Option String
truthy none = none
truthy (some s) = if str_eq s "" then none else some s

pub default_route : Router → Option Route
default_route router = elim (truthy router.default_agent_id) [
  | none ↦ none
  | some id ↦ some (record { agent_id = id; matched_by = by_default })
]

abbrev pub has_key : String → Rule → Bool
has_key key rule = str_eq rule.route_key key

abbrev pub rule_route : Option Rule → Option Route → Option Route
rule_route none fallback = fallback
rule_route (some rule) fallback =
    some (record { agent_id = rule.agent_id; matched_by = by_route_key })

pub key_route : Option String → Router → Option Route
unfolding default_route
key_route none router = default_route router
key_route (some key) router = rule_route (find? (has_key key) router.rules) (default_route router)

pub route : Router → Destination → Option Route
unfolding key_route
route router d = elim (truthy d.agent_id) [
  | none ↦ key_route (truthy d.route_key) router
  | some id ↦ some (record { agent_id = id; matched_by = by_agent_id })
]

pub add_rule : Rule → Router → Router
add_rule rule router = record router { rules = router.rules ++ rule ∷ [] }

pub remove_rule : String → Router → Router
remove_rule key router = record router {
  rules = filter (λ rule. not (has_key key rule)) router.rules;
}
