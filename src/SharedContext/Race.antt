-- ===== src/SharedContext/Race.antt =====
-- `postMessage` of src/shared-context.ts reads the file, and appends its events later: what others have
-- appended in between.
use claw_crony.Base.{◌≡◌, ap, sym, subst, ℕ, String, Option, none, some, List, [], ◌∷◌, ◌++◌, ◌∙◌}
use claw_crony.Base.Dict.{lookup, lookup-insert_self}
use claw_crony.SharedContext.{list_at, load_state, post_events, post_message}
use claw_crony.SharedContext.Types.{
  Artifact, Room, opened, Message, Event, Line, State, ok, Options, MessageInput,
}
use claw_crony.SharedContext.Log.{apply_events, post_events-effect, post_message-found}
use claw_crony.SharedContext.Keyed.{load_state-IsKeyed, IsKeyed-id}

posted-messages :
    (s : State) (now : ℕ) (room : Room) (m : Message) (artifacts : List Artifact) (id : String)
    → m.room_id ≡ id
    → list_at id (apply_events s (post_events now room m artifacts)).messages
      ≡ list_at id s.messages ++ m ∷ []
posted-messages s now room m artifacts id same =
    subst
      (λ i.
        list_at i (apply_events s (post_events now room m artifacts)).messages
        ≡ list_at i s.messages ++ m ∷ [])
      same
      (ap (list_at m.room_id) ((post_events-effect s now room m artifacts).1)
        ∙ ap (λ (o : Option (List Message)). elim o [ none ↦ [] | some xs ↦ xs ])
            (lookup-insert_self m.room_id (list_at m.room_id s.messages ++ m ∷ []) s.messages))

posted-room :
    (s : State) (now : ℕ) (room : Room) (m : Message) (artifacts : List Artifact) (id : String)
    → room.id ≡ id
    → lookup id (apply_events s (post_events now room m artifacts)).rooms
      ≡ some (record room { updated_at = now })
posted-room s now room m artifacts id same =
    subst
      (λ i.
        lookup i (apply_events s (post_events now room m artifacts)).rooms
        ≡ some (record room { updated_at = now }))
      same
      (ap (lookup room.id) ((post_events-effect s now room m artifacts).0)
        ∙ lookup-insert_self room.id (record room { updated_at = now }) s.rooms)

module _ (trim lower : String → String) (units : String → ℕ) where
  -- A post that succeeds on the lines that it has loaded, and whose events are appended to any later lines:
  -- the room that it loaded was open; its messages are the later ones and the new one; and the room is again
  -- as it was loaded, with a new time, whatever was written to it in between.
  pub post_message-later :
      (options : Options) (loaded later : List Line) (now : ℕ) (id : String) (input : MessageInput)
      (m : Message) (events : List Event)
      → post_message trim lower units options (load_state loaded) now id input ≡ ok (m, events)
      → (room : Room) × (lookup input.room_id (load_state loaded).rooms ≡ some room)
        × (room.status ≡ opened)
        × (list_at input.room_id (apply_events (load_state later) events).messages
            ≡ list_at input.room_id (load_state later).messages ++ m ∷ [])
        × (lookup input.room_id (apply_events (load_state later) events).rooms
            ≡ some (record room { updated_at = now }))
  post_message-later options loaded later now id input m events h =
      let (room, found, is_open, same, (artifacts, e, inside)) =
        post_message-found trim lower units options (load_state loaded) now id input m events h in
      let own =
        IsKeyed-id input.room_id room (load_state loaded) (load_state-IsKeyed loaded) found in
      (
        room,
        found,
        is_open,
        subst
            (λ es.
              list_at input.room_id (apply_events (load_state later) es).messages
              ≡ list_at input.room_id (load_state later).messages ++ m ∷ [])
            (sym e) (posted-messages (load_state later) now room m artifacts input.room_id same),
        subst
            (λ es.
              lookup input.room_id (apply_events (load_state later) es).rooms
              ≡ some (record room { updated_at = now }))
            (sym e) (posted-room (load_state later) now room m artifacts input.room_id own),
      )
