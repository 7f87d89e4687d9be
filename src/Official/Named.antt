-- ===== src/Official/Named.antt =====
-- src/official-agent-call.ts: which action `findAction` finds.
use claw_crony.Base.{
  ◌≡◌, refl, sym, ap, ◌∙◌, ◌≢◌, ◌↔◌, ◌⊎◌, inl, inr, Option, none, some, Bool-cases,
}
use claw_crony.Base.Text.{Text, same, same_iff, lower, trim}
use claw_crony.Base.Json.{Json, Items, nil, cons}
use claw_crony.Hub.Agents.{HubAgent}
use claw_crony.Official.Action.{
  Action, normalize_action, choose, first_action, items_of, manifest_entry, find_action,
}
use claw_crony.Official.Declared.{IsRead, normalize_action-IsRead, IsRead-normalize_action}

-- The first of the items that declares an action of the name, which is in lower case.
abbrev pub IsFirstNamed : Text → Action → Items → Type 0
IsFirstNamed name a nil = ⊥
IsFirstNamed name a (cons raw items) =
    (IsRead raw a × (lower a.name ≡ name))
    ⊎ (((b : Action) → IsRead raw b → lower b.name ≢ name) × IsFirstNamed name a items)

choose-IsFirstNamed :
    (name : Text) (a : Action) (raw : Json) (items : Items) (o : Option Action)
    → normalize_action raw ≡ o
    → (first_action name items ≡ some a → IsFirstNamed name a items)
    → choose o name (first_action name items) ≡ some a
    → IsFirstNamed name a (cons raw items)
choose-IsFirstNamed name a raw items none n rest e =
    inr (λ b read. absurd (let k = IsRead-normalize_action raw b read in cc), rest e)
choose-IsFirstNamed name a raw items (some b) n rest e =
    elim (Bool-cases (same (lower b.name) name)) [
      | inl named ↦
          let found : some b ≡ some a = rw named at e in
          inl (
            normalize_action-IsRead raw a (n ∙ found),
            sym (ap lower (name_of b a found)) ∙ (same_iff (lower b.name) name).0 named,
          )
      | inr other ↦ inr (
        λ c read is_named.
            let found : some b ≡ some c = sym n ∙ IsRead-normalize_action raw c read in
            let named =
              (same_iff (lower b.name) name).1 (ap lower (name_of b c found) ∙ is_named) in
            absurd (cc),
        rest (rw other at e),
      )
    ]
  where
    name_of : (x y : Action) → some x ≡ some y → x.name ≡ y.name
    name_of x y h = cc

first_action-IsFirstNamed :
    (name : Text) (a : Action) (items : Items)
    → first_action name items ≡ some a
    → IsFirstNamed name a items
unfolding first_action
first_action-IsFirstNamed name a nil e = absurd (cc)
first_action-IsFirstNamed name a (cons raw items) e =
    choose-IsFirstNamed name a raw items (normalize_action raw) refl
      (first_action-IsFirstNamed name a items) e

choose-rest :
    (name : Text) (raw : Json) (others : Option Action) (o : Option Action)
    → normalize_action raw ≡ o
    → ((b : Action) → IsRead raw b → lower b.name ≢ name)
    → choose o name others ≡ others
choose-rest name raw others none n never = refl
choose-rest name raw others (some b) n never = elim (Bool-cases (same (lower b.name) name)) [
  | inl named ↦
      absurd (never b (normalize_action-IsRead raw b n) ((same_iff (lower b.name) name).0 named))
  | inr other ↦ rw other refl
]

IsFirstNamed-first_action :
    (name : Text) (a : Action) (items : Items)
    → IsFirstNamed name a items
    → first_action name items ≡ some a
unfolding first_action
IsFirstNamed-first_action name a nil h = absurd h
IsFirstNamed-first_action name a (cons raw items) (inl (read, named)) =
    rw (first_action, IsRead-normalize_action raw a read, (same_iff (lower a.name) name).1 named)
      refl
IsFirstNamed-first_action name a (cons raw items) (inr (never, rest)) =
    choose-rest name raw (first_action name items) (normalize_action raw) refl never
    ∙ IsFirstNamed-first_action name a items rest

-- The action of the name in the list that the agent's manifest declares, without regard to the case of letters
-- and to white space around the name.
abbrev pub IsDeclared : HubAgent → Text → Action → Type 0
IsDeclared agent name a =
    IsFirstNamed (lower (trim name)) a (items_of (manifest_entry agent "actions"))

pub find_action_iff :
    (agent : HubAgent) (name : Text) (a : Action)
    → (find_action agent name ≡ some a) ↔ IsDeclared agent name a
unfolding find_action
find_action_iff agent name a = (first_action-IsFirstNamed _ a _, IsFirstNamed-first_action _ a _)
