-- ===== src/SharedContext/Read.antt =====
-- The reading operations of src/shared-context.ts. A count is the floor of a finite number, 0 for a negative
-- one; `sort` is the order of `Array.prototype.sort` on texts. `listRooms` is not modelled.
use claw_crony.Base.{
  ℕ, ◌-◌, min, max, String, Bool, true, false, Option, none, some, List, ◌++◌, map, ltb, filter,
  length, drop,
}
use claw_crony.Base.Dict.{lookup}
use claw_crony.SharedContext.{list_at, require_enabled, find_room, unique_texts}
use claw_crony.SharedContext.Types.{
  blocker, decision, Room, Message, State, Result, ok, ◌>>◌, Options,
}

-- `normalizeCount`: none is no finite number.
abbrev pub normalize_count : Option ℕ → ℕ → ℕ → ℕ
normalize_count none fallback most = min (max 1 fallback) most
normalize_count (some n) fallback most = min (max 1 n) most

-- `xs.slice(-n)`, for a positive n.
abbrev pub last {ℓ} : {A : Type ℓ} → ℕ → List A → List A
last n xs = drop (length xs - n) xs

pub get_room : Options → State → String → Result (Option Room)
get_room options s id = require_enabled options >> λ _. ok (lookup id s.rooms)

-- `filter.after`; none where no text or an empty one is given.
abbrev pub newer_than : Option ℕ → List Message → List Message
newer_than none messages = messages
newer_than (some after) messages = filter (λ m. ltb after m.ts) messages

unfoldable pub read_messages :
    Options → State → String → Option ℕ → Option ℕ → Result (List Message)
read_messages options s id count after = require_enabled options >> λ _. find_room id s >> λ room.
    ok (
      last (normalize_count count 50 options.max_messages_per_read)
        (newer_than after (list_at id s.messages)))

pub record Summary : Type 0 where
  pub room : Room
  pub message_count : ℕ
  pub artifact_count : ℕ
  pub participants : List String
  pub recent : List Message
  pub blockers : List Message
  pub decisions : List Message

abbrev pub is_blocker : Message → Bool
is_blocker m = elim m.kind [ blocker ↦ true | _ ↦ false ]

abbrev pub is_decision : Message → Bool
is_decision m = elim m.kind [ decision ↦ true | _ ↦ false ]

pub summarize_room :
    (List String → List String) → Options → State → String → Option ℕ → Result Summary
summarize_room sort options s id count = require_enabled options >> λ _. find_room id s >> λ room.
    let messages = list_at id s.messages in
    ok (record {
      room = room;
      message_count = length messages;
      artifact_count = length (list_at id s.artifacts);
      participants =
          sort (unique_texts (room.participants ++ map (λ (m : Message). m.author) messages));
      recent = last (normalize_count count 20 options.max_messages_per_read) messages;
      blockers = last 10 (filter is_blocker messages);
      decisions = last 10 (filter is_decision messages);
    })
