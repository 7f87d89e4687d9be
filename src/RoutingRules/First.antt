-- ===== src/RoutingRules/First.antt =====
-- src/routing-rules.ts: which rule decides.
use claw_crony.Base.{
  ◌≡◌, refl, sym, ◌∙◌, ◌⊎◌, inl, inr, Bool, true, false, ◌&&◌, Option, none, some, List, [], ◌∷◌,
  arith, Bool-cases, find?, All,
}
use claw_crony.Base.Json.{Items, arr}
use claw_crony.Base.Integers.{int_leb, int_leb_refl, int_leb_trans}
use claw_crony.Base.Order.{sort_with, find?-sort_with, All-sort_with_inv, find?-least, find?-narrow}
use claw_crony.RoutingRules.Parsed.{sorted_rules}
use claw_crony.RoutingRules.{
  Target, Rule, rules_of, goes_first, parse_routing_rules, Message, Environment, matches_rule,
  match_rule,
}

abbrev pub target_of : Option Rule → Option Target
target_of none = none
target_of (some r) = some r.target

match_rule-find? :
    (env : Environment) (message : Message) (rules : List Rule)
    → match_rule env message rules ≡ target_of (find? (matches_rule env message) rules)
unfolding match_rule
match_rule-find? env message [] = refl
match_rule-find? env message (r ∷ rules) = ground (arith, match_rule-find? env message rules)

-- The two rules have the same priority.
abbrev pub is_level : Rule → Rule → Bool
is_level a b = int_leb a.priority b.priority && int_leb b.priority a.priority

-- The rule matches, comes first in the configuration among the matching rules of its priority, and
-- no matching rule has a higher one.
pub record Decides (env : Environment) (message : Message) (rules : List Rule) (r : Rule)
    : Type 0 where
  pub first : find? (λ q. matches_rule env message q && is_level q r) rules ≡ some r
  pub highest :
      All (λ q. (matches_rule env message q ≡ false) ⊎ (int_leb q.priority r.priority ≡ true)) rules

is_level_self : (r : Rule) → is_level r r ≡ true
is_level_self r = let e = int_leb_refl r.priority in ground arith

-- Rules of one priority that match are all level with each other.
matching_level :
    (env : Environment) (message : Message) (r a b : Rule)
    → (matches_rule env message a && is_level a r) ≡ true
    → (matches_rule env message b && is_level b r) ≡ true
    → goes_first a b ≡ true
matching_level env message r a b h k =
    int_leb_trans b.priority r.priority a.priority (ground arith) (ground arith)

find?-Decides :
    (env : Environment) (message : Message) (items : Items) (r : Rule)
    → find? (matches_rule env message) (parse_routing_rules (arr items)) ≡ some r
    → Decides env message (rules_of items) r
unfolding parse_routing_rules
find?-Decides env message items r h = record {
  first =
      sym (find?-sort_with goes_first level_match (rules_of items) (matching_level env message r))
      ∙ find?-narrow (matches_rule env message) (λ q. is_level q r) sorted r h (is_level_self r);
  highest =
      All-sort_with_inv goes_first
        (λ q. (matches_rule env message q ≡ false) ⊎ (goes_first r q ≡ true)) (rules_of items)
        (find?-least goes_first (matches_rule env message) sorted r (λ q. int_leb_refl q.priority)
          (sorted_rules (rules_of items)) h).1;
}
  where
    sorted : List Rule
    sorted = sort_with goes_first (rules_of items)

    level_match : Rule → Bool
    level_match q = matches_rule env message q && is_level q r

target_of-some :
    (o : Option Rule) (t : Target)
    → target_of o ≡ some t
    → (r : Rule) × (o ≡ some r) × (r.target ≡ t)
target_of-some none t h = absurd (cc)
target_of-some (some r) t h = (r, refl, cc)

-- When a message is given a target, it is the one of a rule that decides: a rule that matches, the
-- first in the configuration among the matching rules of its priority, with no matching rule of
-- a higher one.
pub match_rule-Decides :
    (env : Environment) (message : Message) (items : Items) (t : Target)
    → match_rule env message (parse_routing_rules (arr items)) ≡ some t
    → (r : Rule) × Decides env message (rules_of items) r × (r.target ≡ t)
match_rule-Decides env message items t h =
    let (r, e, q) =
      target_of-some (find? (matches_rule env message) (parse_routing_rules (arr items))) t
        (sym (match_rule-find? env message (parse_routing_rules (arr items))) ∙ h) in
    (r, find?-Decides env message items r e, q)

find?-none :
    (p : Rule → Bool) (rules : List Rule)
    → target_of (find? p rules) ≡ none
    → All (λ q. p q ≡ false) rules
find?-none p [] h = tt
find?-none p (r ∷ rules) h = elim (Bool-cases (p r)) [
  | inl e ↦ absurd (let k : some r.target ≡ none = rw e at h in cc)
  | inr e ↦ (e, find?-none p rules (rw e at h))
]

-- A message is given no target only when no rule of the configuration matches it.
pub match_rule-none :
    (env : Environment) (message : Message) (items : Items)
    → match_rule env message (parse_routing_rules (arr items)) ≡ none
    → All (λ q. matches_rule env message q ≡ false) (rules_of items)
unfolding parse_routing_rules
match_rule-none env message items h =
    All-sort_with_inv goes_first (λ q. matches_rule env message q ≡ false) (rules_of items)
      (find?-none (matches_rule env message) (sort_with goes_first (rules_of items))
        (sym (match_rule-find? env message (sort_with goes_first (rules_of items))) ∙ h))
