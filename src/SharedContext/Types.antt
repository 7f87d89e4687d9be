-- ===== src/SharedContext/Types.antt =====
-- The data of src/shared-context.ts.
use claw_crony.Base.{ℕ, String, Bool, Option, List}
use claw_crony.Base.Dict.{Dict}

-- `SharedMessageKind`
pub data Kind : Type 0 where
  text markdown code diff status_update summary question decision blocker artifact_ref : Kind

pub record Artifact : Type 0 where
  pub id : String
  pub room_id : String
  pub message_id : Option String
  pub kind : String
  pub name : Option String
  pub uri : Option String
  pub mime_type : Option String
  pub digest : Option String
  pub metadata : Option (Dict String)
  pub created_at : ℕ
  pub created_by : String

-- `SharedRoomStatus`
pub data RoomStatus : Type 0 where
  opened archived : RoomStatus

pub record Room : Type 0 where
  pub id : String
  pub title : String
  pub topic : String
  pub participants : List String
  pub tags : List String
  pub status : RoomStatus
  pub created_at : ℕ
  pub updated_at : ℕ
  pub created_by : String
  pub metadata : Option (Dict String)

pub record Message : Type 0 where
  pub id : String
  pub room_id : String
  pub ts : ℕ
  pub author : String
  pub kind : Kind
  pub content : String
  pub artifacts : Option (List Artifact)
  pub metadata : Option (Dict String)

pub data Event : Type 0 where
  room_created room_updated : ℕ → Room → Event
  message_posted : ℕ → Message → Event
  artifact_attached : ℕ → Artifact → Event

-- A line of the file that is not blank; a malformed one holds no event.
pub data Line : Type 0 where
  line : Event → Line
  malformed : Line

pub record State : Type 0 where
  pub rooms : Dict Room
  pub messages : Dict (List Message)
  pub artifacts : Dict (List Artifact)

pub record Options : Type 0 where
  pub enabled : Bool
  pub max_message_chars : ℕ
  pub max_messages_per_read : ℕ

-- What the operations throw.
pub data Error : Type 0 where
  disabled : Error
  missing_text : String → Error
  room_not_found room_archived message_not_found : String → Error
  content_too_long bare_artifact : Error

pub data Result {ℓ} (A : Type ℓ) : Type ℓ where
  ok : A → Result A
  error : Error → Result A

infixr 3 ◌>>◌
abbrev pub ◌>>◌ {ℓ κ} : {A : Type ℓ} {B : Type κ} → Result A → (A → Result B) → Result B
ok a >> f = f a
error e >> f = error e

pub record RoomInput : Type 0 where
  pub title : Option String
  pub topic : Option String
  pub participants : List String
  pub tags : List String
  pub created_by : Option String
  pub metadata : Dict String

pub record ArtifactInput : Type 0 where
  pub new_id : String
  pub kind : String
  pub name : Option String
  pub uri : Option String
  pub mime_type : Option String
  pub digest : Option String
  pub metadata : Option (Dict String)

pub record MessageInput : Type 0 where
  pub room_id : String
  pub author : Option String
  pub content : String
  pub kind : Option String
  pub artifacts : List ArtifactInput
  pub metadata : Dict String

pub record AttachInput : Type 0 where
  pub room_id : String
  pub message_id : Option String
  pub created_by : Option String
  pub kind : Option String
  pub name : Option String
  pub uri : Option String
  pub mime_type : Option String
  pub digest : Option String
  pub metadata : Dict String
