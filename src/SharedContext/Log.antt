-- ===== src/SharedContext/Log.antt =====
-- src/shared-context.ts: what the events of an operation do to the state that a later load gives.
use claw_crony.Base.{
  ◌≡◌, refl, ap, sym, subst, ℕ, String, Bool, true, false, Option, none, some, List, [], ◌∷◌, ◌++◌,
  map, ltb, if◌then◌else◌, All,
}
use claw_crony.Base.Dict.{lookup, insert}
use claw_crony.SharedContext.{
  list_at, apply_event, apply_lines, normalize_artifacts, normalize_artifact_ref, message_artifact,
  require_text, require_enabled, find_room, require_open, require_content_text, text_or_unknown,
  post_events, post_message,
}
use claw_crony.SharedContext.Types.{
  Artifact, Room, opened, archived, Message, Event, room_updated, message_posted, artifact_attached,
  Line, line, malformed, State, Error, content_too_long, bare_artifact, room_not_found, RoomStatus,
  Result, ok, error, ◌>>◌, Options, ArtifactInput, MessageInput,
}

-- The state after the events are appended and the file is loaded again.
abbrev pub apply_events : State → List Event → State
apply_events s events = apply_lines s (map line events)

pub apply_lines-append :
    (s : State) (xs ys : List Line) → apply_lines s (xs ++ ys) ≡ apply_lines (apply_lines s xs) ys
unfolding apply_lines
apply_lines-append s [] ys = refl
apply_lines-append s (malformed ∷ xs) ys = apply_lines-append s xs ys
apply_lines-append s (line event ∷ xs) ys = apply_lines-append (apply_event s event) xs ys

map-append_line : (xs ys : List Event) → map line (xs ++ ys) ≡ map line xs ++ map line ys
map-append_line [] ys = refl
map-append_line (x ∷ xs) ys = ap (λ zs. line x ∷ zs) (map-append_line xs ys)

-- A chain that succeeds has a first step that succeeds.
pub bind-ok {ℓ κ} :
    {A : Type ℓ} {B : Type κ} (o : Result A) (f : A → Result B) (b : B)
    → (o >> f) ≡ ok b
    → (a : A) × (o ≡ ok a) × (f a ≡ ok b)
bind-ok (ok a) f b h = (a, refl, h)
bind-ok (error e) f b h = cc

pub find_room-ok :
    (id : String) (s : State) (room : Room)
    → find_room id s ≡ ok room
    → lookup id s.rooms ≡ some room
find_room-ok id s room h = go (lookup id s.rooms) h
  where
    go :
        (o : Option Room)
        → (elim o [ none ↦ error (room_not_found id) | some r ↦ ok r ]) ≡ ok room
        → o ≡ some room
    go none h = cc
    go (some r) h = cc

pub require_open-ok :
    (id : String) (status : RoomStatus) (u : Unit {0})
    → require_open id status ≡ ok u
    → status ≡ opened
require_open-ok id opened u h = refl
require_open-ok id archived u h = cc

-- Events of artifacts change no room and no message.
artifacts-keep :
    (s : State) (now : ℕ) (artifacts : List Artifact)
    → ((apply_events s (map (artifact_attached now) artifacts)).rooms ≡ s.rooms)
      × ((apply_events s (map (artifact_attached now) artifacts)).messages ≡ s.messages)
unfolding apply_lines apply_event
artifacts-keep s now [] = (refl, refl)
artifacts-keep s now (a ∷ artifacts) =
    artifacts-keep (apply_event s (artifact_attached now a)) now artifacts

-- The room's entry after the events of a post, whatever the state they are applied to.
pub post_events-effect :
    (s : State) (now : ℕ) (room : Room) (m : Message) (artifacts : List Artifact)
    → ((apply_events s (post_events now room m artifacts)).rooms
        ≡ insert room.id (record room { updated_at = now }) s.rooms)
      × ((apply_events s (post_events now room m artifacts)).messages
          ≡ insert m.room_id (list_at m.room_id s.messages ++ m ∷ []) s.messages)
unfolding apply_lines apply_event
post_events-effect s now room m artifacts =
    rw
      (
        map-append_line (map (artifact_attached now) artifacts)
            (room_updated now (record room { updated_at = now }) ∷ []),
        apply_lines-append (apply_event s (message_posted now m))
            (map line (map (artifact_attached now) artifacts))
            (line (room_updated now (record room { updated_at = now })) ∷ []),
      )
      (let (rooms, messages) =
          artifacts-keep (apply_event s (message_posted now m)) now artifacts in
        (ap (insert room.id (record room { updated_at = now })) rooms, messages))

pub if-ok {ℓ} :
    {A : Type ℓ} (b : Bool) (e : Error) (r : Result A) (a : A)
    → (if b then error e else r) ≡ ok a
    → r ≡ ok a
if-ok true e r a h = cc
if-ok false e r a h = h

pub ok-pair : {A B : Type 0} (x y : A × B) → ok x ≡ ok y → (x.0 ≡ y.0) × (x.1 ≡ y.1)
ok-pair {A} {B} x y h = (ap (λ r. (or_first x r).0) h, ap (λ r. (or_first x r).1) h)
  where
    or_first : A × B → Result (A × B) → A × B
    or_first z (ok p) = p
    or_first z (error e) = z

ok-list : {A : Type 0} (xs ys : List A) → ok ys ≡ ok xs → ys ≡ xs
ok-list {A} xs ys h = ap (λ r. or_nil r) h
  where
    or_nil : Result (List A) → List A
    or_nil (ok zs) = zs
    or_nil (error e) = []

module _ (trim lower : String → String) (units : String → ℕ) where
  pub normalize_artifact_ref-room :
      (a b : Artifact) → normalize_artifact_ref trim lower units a ≡ ok b → b.room_id ≡ a.room_id
  normalize_artifact_ref-room a b h =
      let (kind, e, last) =
        bind-ok (require_text trim lower units (some a.kind) "artifact.kind") _ _
          (if-ok _ bare_artifact _ _ h) in
      sym (ap room_or last)
    where
      room_or : Result Artifact → String
      room_or (ok x) = x.room_id
      room_or (error e) = a.room_id

  normalize_artifacts-room :
      (room_id message_id : String) (now : ℕ) (author : String) (inputs : List ArtifactInput)
      (artifacts : List Artifact)
      → normalize_artifacts trim lower units room_id message_id now author inputs ≡ ok artifacts
      → All (λ (a : Artifact). a.room_id ≡ room_id) artifacts
  unfolding normalize_artifacts
  normalize_artifacts-room room_id message_id now author [] artifacts h =
      subst (All (λ (a : Artifact). a.room_id ≡ room_id)) (ok-list artifacts [] h) tt
  normalize_artifacts-room room_id message_id now author (x ∷ inputs) artifacts h =
      let (first, e, h) =
        bind-ok
          (normalize_artifact_ref trim lower units
            (message_artifact room_id message_id now author x))
          (λ first.
            normalize_artifacts trim lower units room_id message_id now author inputs >> λ others.
            ok (first ∷ others))
          _ h in
      let (others, e', h) =
        bind-ok (normalize_artifacts trim lower units room_id message_id now author inputs) _ _ h in
      subst (All (λ (a : Artifact). a.room_id ≡ room_id)) (ok-list artifacts (first ∷ others) h) (
        normalize_artifact_ref-room (message_artifact room_id message_id now author x) first e,
        normalize_artifacts-room room_id message_id now author inputs others e',
      )

  -- What a post that succeeds has found, and the events that it appends.
  pub post_message-found :
      (options : Options) (s : State) (now : ℕ) (id : String) (input : MessageInput) (m : Message)
      (events : List Event)
      → post_message trim lower units options s now id input ≡ ok (m, events)
      → (room : Room) × (lookup input.room_id s.rooms ≡ some room)
        × (room.status ≡ opened)
        × (m.room_id ≡ input.room_id)
        × ((artifacts : List Artifact) × (events ≡ post_events now room m artifacts)
            × All (λ (a : Artifact). a.room_id ≡ input.room_id) artifacts)
  unfolding post_message
  post_message-found options s now id input m events h =
      let (u, enabled, h) = bind-ok (require_enabled options) _ _ h in
      let (room, found, h) = bind-ok (find_room input.room_id s) _ _ h in
      let (v, is_open, h) = bind-ok (require_open input.room_id room.status) _ _ h in
      let (content, filled, h) =
        bind-ok (require_content_text trim lower units input.content "content") _ _ h in
      let (artifacts, normal, h) =
        bind-ok
          (normalize_artifacts trim lower units input.room_id id now
            (text_or_unknown trim lower units input.author) input.artifacts)
          _ _ (if-ok (ltb options.max_message_chars (units content)) content_too_long _ _ h) in
      let (same, appended) = ok-pair _ _ h in
      (
        room,
        find_room-ok input.room_id s room found,
        require_open-ok input.room_id room.status v is_open,
        sym (ap (λ (x : Message). x.room_id) same),
        (
          artifacts,
          subst (λ x. events ≡ post_events now room x artifacts) same (sym appended),
          normalize_artifacts-room input.room_id id now _ input.artifacts artifacts normal,
        ),
      )
