-- ===== src/Internal/Routing/Removal.antt =====
-- src/internal/routing.ts: what adding and removing rules changes.
use claw_crony.Base.{
  ◌≡◌, refl, String, Bool, true, false, not, Option, none, some, List, [], ◌∷◌, if◌then◌else◌,
  str_eq, eq_iff, find?, filter, arith,
}
use claw_crony.Internal.Envelope.{Destination}
use claw_crony.Internal.Routing.{
  Rule, by_agent_id, Router, truthy, default_route, has_key, rule_route, key_route, route,
  remove_rule,
}

-- The route key of a destination decides, and is this one.
abbrev pub is_key : String → Option String → Bool
is_key key none = false
is_key key (some k) = str_eq k key

abbrev pub is_routed_by : String → Destination → Bool
is_routed_by key d = elim (truthy d.agent_id) [
  | none ↦ is_key key (truthy d.route_key)
  | some id ↦ false
]

find-removed :
    (key k : String) (rules : List Rule)
    → find? (has_key k) (filter (λ rule. not (has_key key rule)) rules)
      ≡ (if str_eq k key then none else find? (has_key k) rules)
find-removed key k [] = ground arith
find-removed key k (r ∷ rules) =
    ground
      (arith, find-removed key k rules, eq_iff k key, eq_iff r.route_key key, eq_iff r.route_key k)

key_route-remove :
    (key : String) (o : Option String) (router : Router)
    → key_route o (remove_rule key router)
      ≡ (if is_key key o then default_route router else key_route o router)
unfolding key_route default_route remove_rule
key_route-remove key none router = refl
key_route-remove key (some k) router = rw (find-removed key k router.rules) (choose (str_eq k key))
  where
    choose :
        (b : Bool)
        → rule_route (if b then none else find? (has_key k) router.rules) (default_route router) ≡ (
            if b
            then default_route router
            else rule_route (find? (has_key k) router.rules) (default_route router))
    choose true = refl
    choose false = refl

-- After the removal of a rule's key, a destination that the key decides goes to the default agent, if there is
-- one, and every other destination goes where it went.
pub route-remove_rule :
    (key : String) (router : Router) (d : Destination)
    → route (remove_rule key router) d
      ≡ (if is_routed_by key d then default_route router else route router d)
unfolding route
route-remove_rule key router d = go (truthy d.agent_id)
  where
    go :
        (o : Option String)
        → (elim o [
          | none ↦ key_route (truthy d.route_key) (remove_rule key router)
          | some id ↦ some (record { agent_id = id; matched_by = by_agent_id })
        ])
          ≡ (if elim o [ none ↦ is_key key (truthy d.route_key) | some id ↦ false ]
              then default_route router
              else elim o [
                | none ↦ key_route (truthy d.route_key) router
                | some id ↦ some (record { agent_id = id; matched_by = by_agent_id })
              ])
    go none = key_route-remove key (truthy d.route_key) router
    go (some id) = refl
