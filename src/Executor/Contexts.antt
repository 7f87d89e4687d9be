-- ===== src/Executor/Contexts.antt =====
-- src/executor.ts: the map from tasks to their contexts, `rememberTaskContext` and `cancelTask`.
use claw_crony.Base.{
  ℕ, ◌+◌, ◌≤◌, String, ◌≡◌, refl, ◌∙◌, ◌≢◌, inl, inr, Bool, none, some, List, [], ◌∷◌, ◌++◌, arith,
  eq_iff, str_eq, ltb, if◌then◌else◌, Bool-cases, length,
}
use claw_crony.Base.Dict.{
  Dict, lookup, insert, erase, NodupKeys, lookup-erase, lookup-insert_self, lookup-insert_ne,
  lookup-erase_self, insert-NodupKeys, erase-NodupKeys, length-erase-none, length-insert,
}

abbrev pub Contexts : Type 0
Contexts = Dict String

-- Deletes the first key of the map, if it is not the empty text.
unfoldable pub drop_oldest : Contexts → Contexts
unfolding erase
drop_oldest [] = []
drop_oldest ((k, c) ∷ d) = if str_eq k "" then (k, c) ∷ d else erase k ((k, c) ∷ d)

-- `limit` is TASK_CONTEXT_CACHE_LIMIT. To delete a key that is absent changes nothing.
unfoldable pub remember_task_context : ℕ → String → String → Contexts → Contexts
unfolding insert erase drop_oldest
remember_task_context limit task_id context_id m =
    let set = insert task_id context_id (erase task_id m) in
    if ltb limit (length set) then drop_oldest set else set

-- What is published for a cancellation.
pub data Notice : Type 0 where
  canceled : String → String → Notice
  finished : Notice

abbrev pub is_empty : String → Bool
is_empty c = str_eq c ""

unfoldable pub cancel_task : String → Contexts → Contexts × List Notice
unfolding erase lookup
cancel_task task_id m = elim (lookup task_id m) [
  | none ↦ (m, finished ∷ [])
  | some context_id ↦
      if is_empty context_id
      then (m, finished ∷ [])
      else (erase task_id m, canceled task_id context_id ∷ finished ∷ [])
]

pub record IsValid (limit : ℕ) (m : Contexts) : Type 0 where
  pub nodup : NodupKeys m
  pub small : length m ≤ limit
  pub named : lookup "" m ≡ none

insert-absent :
    (k c : String) (m : Contexts) → lookup k m ≡ none → insert k c m ≡ m ++ ((k, c) ∷ [])
unfolding insert lookup
insert-absent k c [] h = refl
insert-absent k c ((j, b) ∷ m) h = ground (arith, insert-absent k c m)

erase-absent : (k : String) (m : Contexts) → lookup k m ≡ none → erase k m ≡ m
unfolding erase lookup
erase-absent k [] h = refl
erase-absent k ((j, b) ∷ m) h = ground (arith, erase-absent k m)

length-erase_le : (k : String) (m : Contexts) → length (erase k m) ≤ length m
unfolding erase
length-erase_le k [] = omega arith
length-erase_le k ((j, b) ∷ m) = ground (arith, length-erase_le k m)

-- The oldest is dropped from a map with another entry behind it.
drop_oldest-length :
    (m : Contexts)
    → NodupKeys m
    → lookup "" m ≡ none
    → 1 ≤ length m
    → length (drop_oldest m) + 1 ≡ length m
unfolding drop_oldest erase lookup
drop_oldest-length [] u e h = absurd (omega arith)
drop_oldest-length ((k, c) ∷ d) (f, u) e h =
    ground (arith, eq_iff k "", eq_iff k k, length-erase-none k d f)

drop_oldest-NodupKeys : (m : Contexts) → NodupKeys m → NodupKeys (drop_oldest m)
unfolding drop_oldest
drop_oldest-NodupKeys [] u = tt
drop_oldest-NodupKeys ((k, c) ∷ d) u = ground (arith, erase-NodupKeys k ((k, c) ∷ d) u)

drop_oldest-lookup-none :
    (j : String) (m : Contexts) → lookup j m ≡ none → lookup j (drop_oldest m) ≡ none
unfolding drop_oldest
drop_oldest-lookup-none j [] h = h
drop_oldest-lookup-none j ((k, c) ∷ d) h = ground (arith, lookup-erase k j ((k, c) ∷ d))

-- The last entry of a longer map is kept.
drop_oldest-last :
    (k c : String) (m : Contexts)
    → lookup k m ≡ none
    → 1 ≤ length m
    → lookup k (drop_oldest (insert k c m)) ≡ some c
unfolding drop_oldest insert lookup
drop_oldest-last k c [] h n = absurd (omega arith)
drop_oldest-last k c ((j, b) ∷ m) h n =
    ground (arith, eq_iff j k, lookup-erase j k ((j, b) ∷ insert k c m), lookup-insert_self k c m)

-- Remembering a task with a name keeps the map within its limit, each task in it once and named, and the
-- context of that task is the one that is remembered, whatever the map held.
pub remember_task_context-IsValid :
    (limit : ℕ) (task_id context_id : String) (m : Contexts)
    → 1 ≤ limit
    → task_id ≢ ""
    → IsValid limit m
    → IsValid limit (remember_task_context limit task_id context_id m)
      × (lookup task_id (remember_task_context limit task_id context_id m) ≡ some context_id)
unfolding remember_task_context
remember_task_context-IsValid limit task_id context_id m positive named v =
    let rest = erase task_id m in
    let set = insert task_id context_id rest in
    let absent : lookup task_id rest ≡ none = lookup-erase_self task_id m in
    let u : NodupKeys set =
      insert-NodupKeys task_id context_id rest (erase-NodupKeys task_id m (v.nodup)) in
    let unnamed : lookup "" rest ≡ none =
      (let e = lookup-erase task_id "" m in let n = v.named in ground arith) in
    let unnamed_set : lookup "" set ≡ none =
      lookup-insert_ne task_id "" context_id rest named ∙ unnamed in
    let size : length set ≡ length rest + 1 =
      length-insert task_id context_id rest ∙ rw absent refl in
    let fewer = length-erase_le task_id m in
    let small = v.small in
    elim (Bool-cases (ltb limit (length set))) [
      | inl over ↦
          let many : 1 ≤ length rest = ground arith in
          let shorter = drop_oldest-length set u unnamed_set (omega arith) in
          rw over (
            record {
              nodup = drop_oldest-NodupKeys set u;
              small = omega arith;
              named = drop_oldest-lookup-none "" set unnamed_set;
            },
            drop_oldest-last task_id context_id rest absent many,
          )
      | inr fits ↦ rw fits (
        record { nodup = u; small = ground arith; named = unnamed_set },
        lookup-insert_self task_id context_id rest,
      )
    ]
