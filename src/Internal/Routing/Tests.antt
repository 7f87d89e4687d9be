-- ===== src/Internal/Routing/Tests.antt =====
-- Runs of src/internal/routing.ts.
use claw_crony.Base.{◌≡◌, refl, none, some, [], ◌∷◌}
use claw_crony.Internal.Envelope.{Destination}
use claw_crony.Internal.Routing.{Router, by_route_key, key_route, route}

abbrev router : Router
router = record {
  rules = record { route_key = "k"; agent_id = "a" } ∷ [];
  default_agent_id = some "main";
}

abbrev destination : Destination
destination = record { gateway_id = none; agent_id = some ""; route_key = some "k" }

route-run : route router destination ≡ some (record { agent_id = "a"; matched_by = by_route_key })
unfolding route key_route
route-run = refl
