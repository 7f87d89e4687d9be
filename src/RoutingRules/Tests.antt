-- ===== src/RoutingRules/Tests.antt =====
-- Runs of src/routing-rules.ts: a pattern matches where the text starts with it.
use claw_crony.Base.{String, ◌≡◌, refl, none, some, [], ◌∷◌, map, if◌then◌else◌}
use claw_crony.Base.Text.{codes, same, starts_with}
use claw_crony.Base.Json.{Json, Items, Fields, num, str, arr, obj, nil, cons, end, field}
use claw_crony.Base.Integers.{ℤ, int_leb, pos, negsuc}
use claw_crony.RoutingRules.{
  Target, Rule, rules_of, parse_routing_rules, Message, Environment, match_rule,
}
use claw_crony.RoutingRules.First.{Decides, match_rule-Decides}

abbrev env : Environment
env = record {
  matches =
      λ pattern text. if same pattern (codes "(") then none else some (starts_with text pattern);
  peer_skills = λ peer. if same peer (codes "p2") then some (codes "code" ∷ []) else none;
}

abbrev rule_json : String → Fields → String → ℤ → Json
rule_json name criteria peer priority = obj (
    field (codes "name") (str (codes name)) (
      field (codes "match") (obj criteria) (
        field (codes "target") (obj (field (codes "peer") (str (codes peer)) end))
          (field (codes "priority") (num priority) end))))

abbrev config : Items
config = cons (rule_json "low" (field (codes "pattern") (str (codes "h")) end) "p1" (negsuc 2)) (
    cons (rule_json "dropped" end "p1" (pos 9)) (
      cons
        (rule_json "high" (field (codes "skills") (arr (cons (str (codes "code")) nil)) end) " p2 "
          (pos 5))
        (cons (rule_json "broken" (field (codes "pattern") (str (codes "(")) end) "p3" (pos 9))
          nil)))

abbrev hello : Message
hello = record { text = codes "hello"; tags = [] }

abbrev to_p2 : Target
to_p2 = record { peer = codes "p2"; agent_id = none }

names_in_order :
    map (λ (r : Rule). r.name) (parse_routing_rules (arr config))
    ≡ codes "broken" ∷ codes "high" ∷ codes "low" ∷ []
unfolding parse_routing_rules int_leb
names_in_order = refl

chosen : match_rule env hello (parse_routing_rules (arr config)) ≡ some to_p2
unfolding match_rule parse_routing_rules int_leb
chosen = refl

match_rule-Decides_example : (r : Rule) × Decides env hello (rules_of config) r × (r.target ≡ to_p2)
match_rule-Decides_example = match_rule-Decides env hello config to_p2 chosen
