-- ===== src/RoutingRules/Parsed.antt =====
-- src/routing-rules.ts: what `parseRoutingRules` keeps, and in which order.
use mathlib.Core.List.{Perm}
use claw_crony.Base.{
  WhenSome, chain-WhenSome, ◌≤◌, ◌≡◌, subst, inl, inr, true, false, Option, none, some, List, [],
  ◌∷◌, arith, Bool-cases, length, All,
}
use claw_crony.Base.Text.{Text, codes, trim}
use claw_crony.Base.Json.{Json, Items, get, null, bool, num, str, arr, obj, nil, cons}
use claw_crony.Base.Integers.{int_leb_trans, int_leb_total}
use claw_crony.Base.Order.{sort_with, IsOrdered, All-sort_with, sort_with-perm, sort_with-IsOrdered}
use claw_crony.RoutingRules.{
  is_selective, Criteria, Rule, as_object, non_empty, trimmed, criteria_of, checked, rule_of,
  cons_some, rules_of, goes_first, parse_routing_rules,
}

-- A rule with a name, a peer and a criterion to match.
pub record IsValid (rule : Rule) : Type 0 where
  pub named : 1 ≤ length rule.name
  pub targeted : 1 ≤ length rule.target.peer
  pub selective : is_selective rule.criteria ≡ true

non_empty-length : (t u : Text) → non_empty t ≡ some u → 1 ≤ length u
non_empty-length [] u h = absurd (cc)
non_empty-length (c ∷ t) u h = subst (λ x. 1 ≤ length x) (let e : c ∷ t ≡ u = cc in e) (omega arith)

trimmed-length : (v : Option Json) (u : Text) → trimmed v ≡ some u → 1 ≤ length u
unfolding trimmed
trimmed-length (some (str t)) u h = non_empty-length (trim t) u h
trimmed-length none u h = absurd (cc)
trimmed-length (some null) u h = absurd (cc)
trimmed-length (some (bool b)) u h = absurd (cc)
trimmed-length (some (num n)) u h = absurd (cc)
trimmed-length (some (arr items)) u h = absurd (cc)
trimmed-length (some (obj fs)) u h = absurd (cc)

checked-selective : (c d : Criteria) → checked c ≡ some d → is_selective d ≡ true
unfolding checked
checked-selective c d h = elim (Bool-cases (is_selective c)) [
  | inl s ↦
      let e : some c ≡ some d = rw (checked, s) at h in
      subst (λ x. is_selective x ≡ true) (let q : c ≡ d = cc in q) s
  | inr s ↦ let e : none ≡ some d = rw (checked, s) at h in absurd (cc)
]

rule_of-IsValid : (entry : Json) → WhenSome IsValid (rule_of entry)
unfolding rule_of
rule_of-IsValid entry = chain-WhenSome IsValid (as_object (some entry)) _ λ fs e1.
    chain-WhenSome IsValid (trimmed (get (codes "name") fs)) _ λ name e2.
      chain-WhenSome IsValid (as_object (get (codes "match") fs)) _ λ raw e3.
        chain-WhenSome IsValid (checked (criteria_of raw)) _ λ criteria e4.
          chain-WhenSome IsValid (as_object (get (codes "target") fs)) _ λ target e5.
            chain-WhenSome IsValid (trimmed (get (codes "peer") target)) _ λ peer e6. record {
              named = trimmed-length (get (codes "name") fs) name e2;
              targeted = trimmed-length (get (codes "peer") target) peer e6;
              selective = checked-selective (criteria_of raw) criteria e4;
            }

cons_some-All :
    (o : Option Rule) (rules : List Rule)
    → WhenSome IsValid o
    → All IsValid rules
    → All IsValid (cons_some o rules)
cons_some-All none rules v h = h
cons_some-All (some r) rules v h = (v, h)

rules_of-IsValid : (items : Items) → All IsValid (rules_of items)
unfolding rules_of
rules_of-IsValid nil = tt
rules_of-IsValid (cons entry items) =
    cons_some-All (rule_of entry) (rules_of items) (rule_of-IsValid entry) (rules_of-IsValid items)

goes_first_trans :
    (a b c : Rule) → goes_first a b ≡ true → goes_first b c ≡ true → goes_first a c ≡ true
goes_first_trans a b c h k = int_leb_trans c.priority b.priority a.priority k h

goes_first_total : (a b : Rule) → goes_first a b ≡ false → goes_first b a ≡ true
goes_first_total a b h = int_leb_total b.priority a.priority h

pub sorted_rules : (rules : List Rule) → IsOrdered goes_first (sort_with goes_first rules)
sorted_rules = sort_with-IsOrdered goes_first goes_first_trans goes_first_total

-- From a list of entries the parser gives the rules that the entries stand for, each as often, in an
-- order in which no rule stands after one of a lower priority; each has a name, a peer and at
-- least one criterion.
pub parse_routing_rules-IsValid :
    (items : Items)
    → Perm (parse_routing_rules (arr items)) (rules_of items)
      × IsOrdered goes_first (parse_routing_rules (arr items))
      × All IsValid (parse_routing_rules (arr items))
unfolding parse_routing_rules
parse_routing_rules-IsValid items = (
  sort_with-perm goes_first (rules_of items),
  sorted_rules (rules_of items),
  All-sort_with goes_first IsValid (rules_of items) (rules_of-IsValid items),
)
