-- ===== src/SharedContext/Frozen.antt =====
-- src/shared-context.ts: operations one after the other. An archived room stays archived, and nothing is
-- added to it.
use claw_crony.Base.{
  ◌≡◌, ◌≢◌, ◌∙◌, refl, ap, sym, subst, inl, inr, ℕ, String, Option, none, some, List, [], ◌∷◌, ◌++◌,
  map, All, All-map_imp,
}
use claw_crony.Base.Dict.{lookup}
use claw_crony.SharedContext.{
  load_state, require_enabled, require_text, find_room, require_open, require_message,
  normalize_artifact_ref, attached_artifact, create_room, archive_room, post_events, post_message,
  attach_artifact,
}
use claw_crony.SharedContext.Types.{
  Artifact, Room, opened, archived, Message, Event, artifact_attached, Line, line, State, Result,
  ok, error, ◌>>◌, Options, RoomInput, MessageInput, AttachInput,
}
use claw_crony.SharedContext.Log.{
  apply_lines-append, find_room-ok, require_open-ok, post_message-found,
  normalize_artifact_ref-room,
}
use claw_crony.SharedContext.Keyed.{load_state-IsKeyed, IsKeyed-id}
use claw_crony.SharedContext.Spared.{IsArchived, Spares, Keeps, apply_events-Keeps}

pub data Operation : Type 0 where
  create : String → ℕ → RoomInput → Operation
  archive : ℕ → String → Operation
  post : ℕ → String → MessageInput → Operation
  attach : ℕ → String → AttachInput → Operation

abbrev pub events_of {ℓ} : {A : Type ℓ} → Result (A × List Event) → List Event
events_of (ok r) = r.1
events_of (error e) = []

module _ (trim lower : String → String) (units : String → ℕ) (options : Options) where
  -- The lines after an operation; one that throws appends none.
  abbrev pub perform : Operation → List Line → List Line
  perform (create id now input) lines =
      lines ++ map line (events_of (create_room trim lower units options id now input))
  perform (archive now id) lines =
      lines
      ++ map line (events_of (archive_room trim lower units options (load_state lines) now id))
  perform (post now id input) lines =
      lines
      ++ map line
          (events_of (post_message trim lower units options (load_state lines) now id input))
  perform (attach now id input) lines =
      lines
      ++ map line
          (events_of (attach_artifact trim lower units options (load_state lines) now id input))

  abbrev pub perform_all : List Operation → List Line → List Line
  perform_all [] lines = lines
  perform_all (op ∷ ops) lines = perform_all ops (perform op lines)

  -- A room is created under a new id.
  abbrev pub IsFreshFor : String → Operation → Type 0
  IsFreshFor r (create id now input) = id ≢ r
  IsFreshFor r _ = Unit

  bind-Spares {ℓ} :
      {A : Type 0} {B : Type ℓ} (r : String) (o : Result B) (f : B → Result (A × List Event))
      → ((b : B) → o ≡ ok b → All (Spares r) (events_of (f b)))
      → All (Spares r) (events_of (o >> f))
  bind-Spares r (ok b) f h = h b refl
  bind-Spares r (error e) f h = tt

  -- The room of a post or an attachment is another than an archived one.
  open_ne :
      (r id : String) (s : State) (room : Room)
      → IsArchived r s
      → lookup id s.rooms ≡ some room
      → room.status ≡ opened
      → id ≢ r
  open_ne r id s room (old, found, closed) e is_open same = clash (
      sym is_open
      ∙ (ap (λ (o : Option Room). elim o [ none ↦ opened | some x ↦ x.status ])
            (sym (subst (λ i. lookup i s.rooms ≡ some room) same e) ∙ found)
          ∙ closed))
    where
      clash : opened ≡ archived → ⊥
      clash h = cc

  create-Spares :
      (r id : String) (now : ℕ) (input : RoomInput)
      → id ≢ r
      → All (Spares r) (events_of (create_room trim lower units options id now input))
  unfolding create_room
  create-Spares r id now input h = bind-Spares r (require_enabled options) _ (λ u e.
      bind-Spares r (require_text trim lower units input.title "title") _ (λ title e. (inl h, tt)))

  archive-Spares :
      (r : String) (s : State) (now : ℕ) (id : String)
      → All (Spares r) (events_of (archive_room trim lower units options s now id))
  unfolding archive_room
  archive-Spares r s now id =
      bind-Spares r (require_enabled options) _
        (λ u e. bind-Spares r (find_room id s) _ (λ room e. (inr refl, tt)))

  attached-Spares :
      (r : String) (now : ℕ) (artifacts : List Artifact) (last : List Event)
      → All (Spares r) last
      → All (λ a. a.room_id ≢ r) artifacts
      → All (Spares r) (map (artifact_attached now) artifacts ++ last)
  attached-Spares r now [] last h k = h
  attached-Spares r now (a ∷ artifacts) last h (p, k) =
      (p, attached-Spares r now artifacts last h k)

  attach-Spares :
      (r : String) (s : State) (now : ℕ) (id : String) (input : AttachInput)
      → IsArchived r s
      → All (Spares r) (events_of (attach_artifact trim lower units options s now id input))
  unfolding attach_artifact
  attach-Spares r s now id input a = bind-Spares r (require_enabled options) _ (λ u e.
      bind-Spares r (find_room input.room_id s) _ (λ room found.
        bind-Spares r (require_open input.room_id room.status) _ (λ v is_open.
          bind-Spares r (require_message s input.room_id input.message_id) _ (λ w e.
            bind-Spares r (require_text trim lower units input.kind "kind") _ (λ kind e.
              bind-Spares r
                (normalize_artifact_ref trim lower units
                  (attached_artifact trim lower units id now input kind))
                (λ x. ok (x, artifact_attached now x ∷ []))
                (λ artifact made. (
                  (λ same.
                      open_ne r input.room_id s room a (find_room-ok input.room_id s room found)
                        (require_open-ok input.room_id room.status v is_open)
                        (sym (
                            normalize_artifact_ref-room trim lower units
                              (attached_artifact trim lower units id now input kind) artifact made)
                          ∙ same)),
                  tt,
                )))))))

  Spares-when_ok :
      {A : Type 0} (r : String) (o : Result (A × List Event))
      → ((a : A) (events : List Event) → o ≡ ok (a, events) → All (Spares r) events)
      → All (Spares r) (events_of o)
  Spares-when_ok r (ok (a, events)) h = h a events refl
  Spares-when_ok r (error e) h = tt

  post_events-Spares :
      (r : String) (now : ℕ) (room : Room) (m : Message) (artifacts : List Artifact)
      → m.room_id ≢ r
      → room.id ≢ r
      → All (λ (a : Artifact). a.room_id ≢ r) artifacts
      → All (Spares r) (post_events now room m artifacts)
  post_events-Spares r now room m artifacts h k others =
      (h, attached-Spares r now artifacts _ (inl k, tt) others)

  post-Spares :
      (r : String) (lines : List Line) (now : ℕ) (id : String) (input : MessageInput)
      → IsArchived r (load_state lines)
      → All
          (Spares r)
          (events_of (post_message trim lower units options (load_state lines) now id input))
  post-Spares r lines now id input a =
      Spares-when_ok r (post_message trim lower units options (load_state lines) now id input)
        (λ m events e.
          let (room, found, is_open, same, (artifacts, appended, inside)) =
            post_message-found trim lower units options (load_state lines) now id input m events
              e in
          let other = open_ne r input.room_id (load_state lines) room a found is_open in
          subst (All (Spares r)) (sym appended) (
            post_events-Spares r now room m artifacts (λ h. other (sym same ∙ h))
              (λ h. other (
                sym (
                  IsKeyed-id input.room_id room (load_state lines) (load_state-IsKeyed lines) found)
                ∙ h))
              (All-map_imp _ (λ (x : Artifact). x.room_id ≢ r) artifacts
                (λ x p h. other (sym p ∙ h)) inside)))

  appended-Keeps :
      (r : String) (lines : List Line) (events : List Event)
      → All (Spares r) events
      → IsArchived r (load_state lines)
      → Keeps r (load_state lines) (load_state (lines ++ map line events))
  unfolding load_state
  appended-Keeps r lines events h a =
      subst (Keeps r (load_state lines)) (sym (apply_lines-append _ lines (map line events)))
        (apply_events-Keeps r (load_state lines) events h a)

  perform-Keeps :
      (r : String) (op : Operation) (lines : List Line)
      → IsFreshFor r op
      → IsArchived r (load_state lines)
      → Keeps r (load_state lines) (load_state (perform op lines))
  perform-Keeps r (create id now input) lines f a =
      appended-Keeps r lines _ (create-Spares r id now input f) a
  perform-Keeps r (archive now id) lines f a =
      appended-Keeps r lines _ (archive-Spares r (load_state lines) now id) a
  perform-Keeps r (post now id input) lines f a =
      appended-Keeps r lines _ (post-Spares r lines now id input a) a
  perform-Keeps r (attach now id input) lines f a =
      appended-Keeps r lines _ (attach-Spares r (load_state lines) now id input a) a

  -- Operations one after the other, none of which creates a room under the id again, leave an archived room
  -- archived, and add neither a message nor an artifact to it.
  pub perform_all-Keeps :
      (r : String) (ops : List Operation) (lines : List Line)
      → All (IsFreshFor r) ops
      → IsArchived r (load_state lines)
      → Keeps r (load_state lines) (load_state (perform_all ops lines))
  perform_all-Keeps r [] lines f a = (a, refl, refl)
  perform_all-Keeps r (op ∷ ops) lines (p, f) a =
      let (a', messages, artifacts) = perform-Keeps r op lines p a in
      let (a'', messages', artifacts') = perform_all-Keeps r ops (perform op lines) f a' in
      (a'', messages' ∙ messages, artifacts' ∙ artifacts)
