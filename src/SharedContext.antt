-- ===== src/SharedContext.antt =====
-- src/shared-context.ts: rooms, messages and artifacts as a log of events in a file. `String`'s trim,
-- toLowerCase and length are the parameters `trim`, `lower` and `units`. Ids and times are arguments; a time
-- stands for its ISO text, whose order is that of the times. Errors of the disk are not modelled. Values that
-- TypeScript types as texts are texts.
pub mod Types
pub mod Read
pub mod Log
pub mod Keyed
pub mod Spared
pub mod Frozen
pub mod Race
pub mod Paging
mod Tests
use claw_crony.Base.{
  ℕ, ◌+◌, ◌-◌, String, Bool, true, false, not, ◌&&◌, Option, none, some, List, [], ◌∷◌, ◌++◌, map,
  ltb, if◌then◌else◌, str_eq, filter, any, ◌>>=◌,
}
use claw_crony.Base.Dict.{Dict, lookup, insert}
use claw_crony.SharedContext.Types.{
  Kind, text, markdown, code, diff, status_update, summary, question, decision, blocker,
  artifact_ref, Artifact, Room, RoomStatus, opened, archived, Message, Event, room_created,
  room_updated, message_posted, artifact_attached, Line, line, malformed, State, Error, disabled,
  missing_text, room_not_found, room_archived, message_not_found, content_too_long, bare_artifact,
  Result, ok, error, ◌>>◌, Options, RoomInput, ArtifactInput, MessageInput, AttachInput,
}

abbrev pub empty_state : State
empty_state = record { rooms = []; messages = []; artifacts = [] }

-- `map.get(k) ?? []`
abbrev pub list_at {ℓ} : {V : Type ℓ} → String → Dict (List V) → List V
list_at k d = elim (lookup k d) [ none ↦ [] | some xs ↦ xs ]

pub apply_event : State → Event → State
apply_event s (room_created ts room) = record s { rooms = insert room.id room s.rooms }
apply_event s (room_updated ts room) = record s { rooms = insert room.id room s.rooms }
apply_event s (message_posted ts m) = record s {
  messages = insert m.room_id (list_at m.room_id s.messages ++ m ∷ []) s.messages;
}
apply_event s (artifact_attached ts a) = record s {
  artifacts = insert a.room_id (list_at a.room_id s.artifacts ++ a ∷ []) s.artifacts;
}

-- The loop of `loadState` over the lines of the file.
pub apply_lines : State → List Line → State
unfolding apply_event
apply_lines s [] = s
apply_lines s (malformed ∷ lines) = apply_lines s lines
apply_lines s (line event ∷ lines) = apply_lines (apply_event s event) lines

pub load_state : List Line → State
unfolding apply_lines
load_state lines = apply_lines empty_state lines

-- What an operation returns and the events that it appends, or what it throws.
abbrev pub Outcome {ℓ} : Type ℓ → Type ℓ
Outcome A = Result (A × List Event)

abbrev pub require_enabled : Options → Result {0} Unit
require_enabled options = if options.enabled then ok tt else error disabled

abbrev pub find_room : String → State → Result Room
find_room id s = elim (lookup id s.rooms) [ none ↦ error (room_not_found id) | some room ↦ ok room ]

abbrev pub require_open : String → RoomStatus → Result {0} Unit
require_open id opened = ok tt
require_open id archived = error (room_archived id)

-- `normalizeMetadata`
abbrev pub normalize_metadata : Dict String → Option (Dict String)
normalize_metadata [] = none
normalize_metadata (m ∷ ms) = some (m ∷ ms)

abbrev pub is_empty : String → Bool
is_empty s = str_eq s ""

-- A text, or none when it is empty or not given.
abbrev pub truthy : Option String → Bool
truthy none = false
truthy (some s) = not (is_empty s)

-- `allowed`
abbrev pub kinds : Dict Kind
kinds =
    ("text", text)
    ∷ ("markdown", markdown)
    ∷ ("code", code)
    ∷ ("diff", diff)
    ∷ ("status_update", status_update)
    ∷ ("summary", summary)
    ∷ ("question", question)
    ∷ ("decision", decision)
    ∷ ("blocker", blocker)
    ∷ ("artifact_ref", artifact_ref)
    ∷ []

-- A `Set` of the texts, in order.
pub distinct : List String → List String → List String
distinct seen [] = []
distinct seen (x ∷ xs) = elim (any (λ y. str_eq y x) seen) [
  | true ↦ distinct seen xs
  | false ↦ x ∷ distinct (x ∷ seen) xs
]

-- `Array.from(new Set(xs))`
pub unique_texts : List String → List String
unfolding distinct
unique_texts xs = distinct [] xs

abbrev pub some_artifacts : List Artifact → Option (List Artifact)
some_artifacts [] = none
some_artifacts (a ∷ rest) = some (a ∷ rest)

-- The events of `postMessage` once the room is found open.
abbrev pub post_events : ℕ → Room → Message → List Artifact → List Event
post_events now room m artifacts =
    message_posted now m ∷ map (artifact_attached now) artifacts
    ++ room_updated now (record room { updated_at = now }) ∷ []

-- An empty message id is not looked up.
abbrev pub require_message : State → String → Option String → Result {0} Unit
require_message s room_id none = ok tt
require_message s room_id (some id) =
    if is_empty id
    then ok tt
    else if any (λ (m : Message). str_eq m.id id) (list_at room_id s.messages)
    then ok tt
    else error (message_not_found id)

-- An artifact of a message, with the id that it is given.
abbrev pub message_artifact : String → String → ℕ → String → ArtifactInput → Artifact
message_artifact room_id message_id now author a = record {
  id = a.new_id;
  room_id = room_id;
  message_id = some message_id;
  kind = a.kind;
  name = a.name;
  uri = a.uri;
  mime_type = a.mime_type;
  digest = a.digest;
  metadata = a.metadata;
  created_at = now;
  created_by = author;
}

module _ (trim lower : String → String) (units : String → ℕ) where
  -- `optionalText`
  abbrev pub optional_text : Option String → String
  optional_text none = ""
  optional_text (some s) = trim s

  -- `optionalText(x) || undefined`
  abbrev pub text_or_none : Option String → Option String
  text_or_none o = if is_empty (optional_text o) then none else some (optional_text o)

  -- `optionalText(x) || "unknown"`
  abbrev pub text_or_unknown : Option String → String
  text_or_unknown o = if is_empty (optional_text o) then "unknown" else optional_text o

  abbrev pub require_text : Option String → String → Result String
  require_text o name =
      if is_empty (optional_text o) then error (missing_text name) else ok (optional_text o)

  abbrev pub require_content_text : String → String → Result String
  require_content_text s name = if is_empty (trim s) then error (missing_text name) else ok s

  pub normalize_string_list : List String → List String
  unfolding unique_texts
  normalize_string_list xs = unique_texts (filter (λ x. not (is_empty x)) (map trim xs))

  pub create_room : Options → String → ℕ → RoomInput → Outcome Room
  unfolding normalize_string_list
  create_room options id now input = require_enabled options >> λ _.
      require_text input.title "title" >> λ title.
      let room : Room = record {
        id = id;
        title = title;
        topic = optional_text input.topic;
        participants = normalize_string_list input.participants;
        tags = map lower (normalize_string_list input.tags);
        status = opened;
        created_at = now;
        updated_at = now;
        created_by = text_or_unknown input.created_by;
        metadata = normalize_metadata input.metadata;
      } in
      ok (room, room_created now room ∷ [])

  pub archive_room : Options → State → ℕ → String → Outcome Room
  archive_room options s now id = require_enabled options >> λ _. find_room id s >> λ room.
      let changed = record room { status = archived; updated_at = now } in
      ok (changed, room_updated now changed ∷ [])

  abbrev pub normalize_artifact_ref : Artifact → Result Artifact
  normalize_artifact_ref a =
      if not (truthy a.uri) && (not (truthy a.digest) && not (truthy a.name))
      then error bare_artifact
      else require_text (some a.kind) "artifact.kind" >> λ kind. ok (record a { kind = kind })

  pub normalize_artifacts :
      String → String → ℕ → String → List ArtifactInput → Result (List Artifact)
  normalize_artifacts room_id message_id now author [] = ok []
  normalize_artifacts room_id message_id now author (a ∷ rest) =
      normalize_artifact_ref (message_artifact room_id message_id now author a) >> λ first.
      normalize_artifacts room_id message_id now author rest >> λ others. ok (first ∷ others)

  abbrev pub normalize_message_kind : Option String → Kind
  normalize_message_kind o = elim (lookup (optional_text o) kinds) [
    | none ↦ markdown
    | some kind ↦ kind
  ]

  pub post_message : Options → State → ℕ → String → MessageInput → Outcome Message
  unfolding normalize_artifacts
  post_message options s now id input = require_enabled options >> λ _.
      find_room input.room_id s >> λ room. require_open input.room_id room.status >> λ _.
      require_content_text input.content "content" >> λ content.
      if ltb options.max_message_chars (units content)
      then error content_too_long
      else (let author = text_or_unknown input.author in
          normalize_artifacts input.room_id id now author input.artifacts >> λ artifacts.
          let m : Message = record {
            id = id;
            room_id = input.room_id;
            ts = now;
            author = author;
            kind = normalize_message_kind input.kind;
            content = content;
            artifacts = some_artifacts artifacts;
            metadata = normalize_metadata input.metadata;
          } in
          ok (m, post_events now room m artifacts))

  abbrev pub attached_artifact : String → ℕ → AttachInput → String → Artifact
  attached_artifact id now input kind = record {
    id = id;
    room_id = input.room_id;
    message_id = text_or_none input.message_id;
    kind = kind;
    name = text_or_none input.name;
    uri = text_or_none input.uri;
    mime_type = text_or_none input.mime_type;
    digest = text_or_none input.digest;
    metadata = normalize_metadata input.metadata;
    created_at = now;
    created_by = text_or_unknown input.created_by;
  }

  pub attach_artifact : Options → State → ℕ → String → AttachInput → Outcome Artifact
  attach_artifact options s now id input = require_enabled options >> λ _.
      find_room input.room_id s >> λ room. require_open input.room_id room.status >> λ _.
      require_message s input.room_id input.message_id >> λ _.
      require_text input.kind "kind" >> λ kind.
      normalize_artifact_ref (attached_artifact id now input kind) >> λ artifact.
      ok (artifact, artifact_attached now artifact ∷ [])
