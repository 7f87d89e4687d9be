-- ===== src/RoutingRules.antt =====
-- src/routing-rules.ts: reading the rules and choosing the peer of a message. The regular
-- expressions of the language are an argument, with no answer where the pattern is invalid.
use claw_crony.Base.{
  ℕ, zero, suc, ◌+◌, ◌-◌, ◌*◌, ◌/◌, ◌%◌, ◌^◌, ◌≤◌, ◌<◌, min, max, String, ◌≡◌, refl, sym, ap, ◌∙◌,
  subst, ◌≡⟨◌⟩◌, ◌∎, ◌≢◌, ◌↔◌, ◌⊎◌, inl, inr, Bool, true, false, not, ◌&&◌, ◌||◌, Option, none,
  some, List, [], ◌∷◌, ◌++◌, map, append-nil, append_assoc, arith, eq_iff, str_eq, ltb, leb, ◌==◌,
  if◌then◌else◌, ltb→lt, leb→le, lt→ltb, le→leb, ==_iff, Bool-cases, Option-cases, ◌>>=◌, length,
  length-append, take, drop, length-take, filter, length-filter-le, any, find?, All, All-append,
  All-filter, All-take, All-map_imp, List-cases, bit, count, count-append, count-filter_le, AnyOf,
}
use claw_crony.Base.Text.{
  Text, codes, same, same_iff, starts_with, starts_with_append, starts_with_split, ends_with,
  ends_with_self, ends_with_append, ends_with_split, includes, lower_code, lower, lower-append,
  lower_idem, length-lower, is_space, trim_start, keep_unless_blank, trim_end, trim, cons_head,
  split, Free, split-append, split-Free, join, split-join, clip, length-clip_le,
}
use claw_crony.Base.Json.{
  Json, Items, Fields, get, put, keys, null, bool, num, str, arr, obj, nil, cons, end, field,
}
use claw_crony.Base.Integers.{ℤ, pos, negsuc, int_leb}
use claw_crony.Base.Order.{sort_with}
pub mod Parsed
pub mod First
mod Tests

pub record Criteria : Type 0 where
  pub pattern : Option Text
  pub tags : Option (List Text)
  pub skills : Option (List Text)

pub record Target : Type 0 where
  pub peer : Text
  pub agent_id : Option Text

pub record Rule : Type 0 where
  pub name : Text
  pub criteria : Criteria
  pub target : Target
  pub priority : ℤ

-- `value && typeof value === "object"`; an array has none of the keys that are read.
abbrev pub as_object : Option Json → Option Fields
as_object (some (obj fs)) = some fs
as_object (some (arr items)) = some end
as_object _ = none

abbrev pub as_string : Option Json → Option Text
as_string (some (str t)) = some t
as_string _ = none

-- A text, or none where it is empty.
abbrev pub non_empty : Text → Option Text
non_empty [] = none
non_empty (c ∷ t) = some (c ∷ t)

-- The strings of an array that are not empty.
unfoldable pub strings_of : Items → List Text
strings_of nil = []
strings_of (cons (str (c ∷ t)) items) = (c ∷ t) ∷ strings_of items
strings_of (cons _ items) = strings_of items

abbrev pub non_empty_list : List Text → Option (List Text)
non_empty_list [] = none
non_empty_list (t ∷ ts) = some (t ∷ ts)

-- `tags` and `skills`: an array with a string that is not empty.
unfoldable pub list_criterion : Option Json → Option (List Text)
unfolding strings_of
list_criterion (some (arr items)) = non_empty_list (strings_of items)
list_criterion _ = none

-- `typeof value === "string" ? value.trim() : ""`
unfoldable pub trimmed : Option Json → Option Text
unfolding trim
trimmed (some (str t)) = non_empty (trim t)
trimmed _ = none

abbrev pub number_or_zero : Option Json → ℤ
number_or_zero (some (num n)) = n
number_or_zero _ = pos 0

unfoldable pub criteria_of : Fields → Criteria
unfolding list_criterion get
criteria_of fs = record {
  pattern = as_string (get (codes "pattern") fs) >>= non_empty;
  tags = list_criterion (get (codes "tags") fs);
  skills = list_criterion (get (codes "skills") fs);
}

abbrev pub is_some {ℓ} : {A : Type ℓ} → Option A → Bool
is_some none = false
is_some (some a) = true

-- At least one criterion is there.
abbrev pub is_selective : Criteria → Bool
is_selective c = is_some c.pattern || is_some c.tags || is_some c.skills

unfoldable pub checked : Criteria → Option Criteria
checked c = if is_selective c then some c else none

-- One round of the loop of `parseRoutingRules`: the rule of an entry, or none where it is dropped.
unfoldable pub rule_of : Json → Option Rule
unfolding trimmed criteria_of checked get
rule_of entry = do
  fs ← as_object (some entry)
  name ← trimmed (get (codes "name") fs)
  match_raw ← as_object (get (codes "match") fs)
  criteria ← checked (criteria_of match_raw)
  target_raw ← as_object (get (codes "target") fs)
  peer ← trimmed (get (codes "peer") target_raw)
  some (record {
    name = name;
    criteria = criteria;
    target = record { peer = peer; agent_id = trimmed (get (codes "agentId") target_raw) };
    priority = number_or_zero (get (codes "priority") fs);
  })

abbrev pub cons_some : Option Rule → List Rule → List Rule
cons_some none rules = rules
cons_some (some r) rules = r ∷ rules

unfoldable pub rules_of : Items → List Rule
unfolding rule_of
rules_of nil = []
rules_of (cons entry items) = cons_some (rule_of entry) (rules_of items)

-- `(b.priority ?? 0) - (a.priority ?? 0) <= 0`
abbrev pub goes_first : Rule → Rule → Bool
goes_first a b = int_leb b.priority a.priority

unfoldable pub parse_routing_rules : Json → List Rule
unfolding rules_of sort_with
parse_routing_rules (arr items) = sort_with goes_first (rules_of items)
parse_routing_rules _ = []

pub record Message : Type 0 where
  pub text : Text
  pub tags : List Text

-- `ts.includes(t)`
abbrev pub has : List Text → Text → Bool
has ts t = any (λ x. same x t) ts

-- The tests of regular expressions, and the skills that are known of each peer.
pub record Environment : Type 0 where
  pub matches : Text → Text → Option Bool
  pub peer_skills : Text → Option (List Text)

abbrev pub is_true : Option Bool → Bool
is_true (some b) = b
is_true none = false

abbrev pub pattern_matches : Environment → Option Text → Text → Bool
pattern_matches env none text = true
pattern_matches env (some pattern) text =
    if ltb 500 (length pattern) then false else is_true (env.matches pattern (take 10_000 text))

abbrev pub overlaps : Option (List Text) → List Text → Bool
overlaps none known = true
overlaps (some wanted) known = any (has known) wanted

abbrev pub or_empty : Option (List Text) → List Text
or_empty none = []
or_empty (some ts) = ts

unfoldable pub matches_rule : Environment → Message → Rule → Bool
unfolding same
matches_rule env message rule =
    pattern_matches env rule.criteria.pattern message.text
    && overlaps rule.criteria.tags message.tags
    && overlaps rule.criteria.skills (or_empty (env.peer_skills rule.target.peer))

-- `matchRule`; `null` is none.
unfoldable pub match_rule : Environment → Message → List Rule → Option Target
unfolding matches_rule
match_rule env message [] = none
match_rule env message (rule ∷ rules) =
    if matches_rule env message rule then some rule.target else match_rule env message rules
