-- ===== src/SharedContext/Tests.antt =====
-- Runs of src/shared-context.ts.
use claw_crony.Base.{◌≡◌, refl, ℕ, String, true, none, some, List, [], ◌∷◌, ◌++◌}
use claw_crony.Base.Dict.{lookup, insert}
use claw_crony.SharedContext.{
  list_at, apply_event, apply_lines, load_state, normalize_artifacts, post_message, post_events,
}
use claw_crony.SharedContext.Types.{
  decision, Room, opened, archived, Message, room_created, room_updated, Line, line, malformed,
  State, ok, Options, MessageInput,
}
use claw_crony.SharedContext.Log.{apply_events}
use claw_crony.SharedContext.Read.{read_messages}
use claw_crony.SharedContext.Frozen.{archive, post, perform_all, perform_all-Keeps}
use claw_crony.SharedContext.Spared.{IsArchived, Keeps}
use claw_crony.SharedContext.Race.{post_message-later}

abbrev same : String → String
same s = s

abbrev units : String → ℕ
units s = 5

abbrev options : Options
options = record { enabled = true; max_message_chars = 100; max_messages_per_read = 10 }

abbrev room : Room
room = record {
  id = "r";
  title = "plan";
  topic = "";
  participants = [];
  tags = [];
  status = opened;
  created_at = 1;
  updated_at = 1;
  created_by = "ann";
  metadata = none;
}

abbrev hello : MessageInput
hello = record {
  room_id = "r";
  author = some "bob";
  content = "hello";
  kind = some "decision";
  artifacts = [];
  metadata = [];
}

abbrev message : Message
message = record {
  id = "m";
  room_id = "r";
  ts = 9;
  author = "bob";
  kind = decision;
  content = "hello";
  artifacts = none;
  metadata = none;
}

abbrev shut : Room
shut = record room { status = archived; updated_at = 5 }

abbrev opening : List Line
opening = line (room_created 1 room) ∷ malformed ∷ []

abbrev closing : List Line
closing = opening ++ line (room_updated 5 shut) ∷ []

post-run :
    post_message same same units options (load_state opening) 9 "m" hello
    ≡ ok (message, post_events 9 room message [])
unfolding post_message load_state apply_lines apply_event insert lookup normalize_artifacts
post-run = refl

-- The post has loaded the open room, and is appended after the archiving.
post_message-later_example :
    (r : Room) × (lookup "r" (load_state opening).rooms ≡ some r)
    × (r.status ≡ opened)
    × (list_at "r" (apply_events (load_state closing) (post_events 9 room message [])).messages
        ≡ list_at "r" (load_state closing).messages ++ message ∷ [])
    × (lookup "r" (apply_events (load_state closing) (post_events 9 room message [])).rooms
        ≡ some (record r { updated_at = 9 }))
post_message-later_example =
    post_message-later same same units options opening closing 9 "m" hello message
      (post_events 9 room message []) post-run

closing-IsArchived : IsArchived "r" (load_state closing)
unfolding load_state apply_lines apply_event insert lookup
closing-IsArchived = (shut, refl, refl)

perform_all-Keeps_example : Keeps "r" (load_state closing) (
    load_state
      (perform_all same same units options (post 9 "m" hello ∷ archive 10 "r" ∷ []) closing))
perform_all-Keeps_example =
    perform_all-Keeps same same units options "r" (post 9 "m" hello ∷ archive 10 "r" ∷ []) closing
      (tt, (tt, tt)) closing-IsArchived

abbrev filled : State
filled = record {
  rooms = ("r", room) ∷ [];
  messages = ("r", message ∷ record message { id = "n" } ∷ []) ∷ [];
  artifacts = [];
}

filled-read : read_messages options filled "r" (some 1) none ≡ ok (record message { id = "n" } ∷ [])
unfolding read_messages lookup
filled-read = refl
