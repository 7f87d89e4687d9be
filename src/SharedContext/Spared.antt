-- ===== src/SharedContext/Spared.antt =====
-- src/shared-context.ts: which events leave an archived room as it is.
use claw_crony.Base.{
  ◌≡◌, ◌≢◌, ◌⊎◌, ◌∙◌, refl, ap, inl, inr, String, true, Option, none, some, List, [], ◌∷◌, str_eq,
  eq_iff, All, Bool-cases,
}
use claw_crony.Base.Dict.{Dict, lookup, insert, lookup-insert, lookup-insert_ne}
use claw_crony.SharedContext.{list_at, apply_event, apply_lines}
use claw_crony.SharedContext.Types.{
  Room, archived, Event, room_created, room_updated, message_posted, artifact_attached, State,
}
use claw_crony.SharedContext.Log.{apply_events}

-- The room is there and archived.
abbrev pub IsArchived : String → State → Type 0
IsArchived r s = (room : Room) × (lookup r s.rooms ≡ some room) × (room.status ≡ archived)

-- An event that opens no room r, and adds nothing to it.
abbrev pub Spares : String → Event → Type 0
Spares r (room_created ts room) = (room.id ≢ r) ⊎ (room.status ≡ archived)
Spares r (room_updated ts room) = (room.id ≢ r) ⊎ (room.status ≡ archived)
Spares r (message_posted ts m) = m.room_id ≢ r
Spares r (artifact_attached ts a) = a.room_id ≢ r

abbrev pub Keeps : String → State → State → Type 0
Keeps r s s' =
    IsArchived r s'
    × (list_at r s'.messages ≡ list_at r s.messages)
    × (list_at r s'.artifacts ≡ list_at r s.artifacts)

put_room-IsArchived :
    (r : String) (room : Room) (s : State)
    → (room.id ≢ r) ⊎ (room.status ≡ archived)
    → IsArchived r s
    → (found : Room) × (lookup r (insert room.id room s.rooms) ≡ some found)
      × (found.status ≡ archived)
put_room-IsArchived r room s safe (old, found, closed) = elim (Bool-cases (str_eq room.id r)) [
  | inl e ↦ (room, lookup-insert room.id r room s.rooms ∙ rw e refl, shut e safe)
  | inr e ↦ (old, lookup-insert room.id r room s.rooms ∙ rw e found, closed)
]
  where
    shut :
        str_eq room.id r ≡ true → (room.id ≢ r) ⊎ (room.status ≡ archived) → room.status ≡ archived
    shut e (inl other) = absurd (other ((eq_iff room.id r).0 e))
    shut e (inr c) = c

list_at-other {ℓ} :
    {V : Type ℓ} (r j : String) (xs : List V) (d : Dict (List V))
    → j ≢ r
    → list_at r (insert j xs d) ≡ list_at r d
list_at-other {V} r j xs d h =
    ap (λ (o : Option (List V)). elim o [ none ↦ [] | some ys ↦ ys ]) (lookup-insert_ne j r xs d h)

apply_event-Keeps :
    (r : String) (s : State) (event : Event)
    → Spares r event
    → IsArchived r s
    → Keeps r s (apply_event s event)
unfolding apply_event
apply_event-Keeps r s (room_created ts room) safe a =
    (put_room-IsArchived r room s safe a, refl, refl)
apply_event-Keeps r s (room_updated ts room) safe a =
    (put_room-IsArchived r room s safe a, refl, refl)
apply_event-Keeps r s (message_posted ts m) safe a =
    (a, list_at-other r m.room_id _ s.messages safe, refl)
apply_event-Keeps r s (artifact_attached ts x) safe a =
    (a, refl, list_at-other r x.room_id _ s.artifacts safe)

pub apply_events-Keeps :
    (r : String) (s : State) (events : List Event)
    → All (Spares r) events
    → IsArchived r s
    → Keeps r s (apply_events s events)
unfolding apply_lines
apply_events-Keeps r s [] h a = (a, refl, refl)
apply_events-Keeps r s (event ∷ events) (p, h) a =
    let (a', messages, artifacts) = apply_event-Keeps r s event p a in
    let (a'', messages', artifacts') = apply_events-Keeps r (apply_event s event) events h a' in
    (a'', messages' ∙ messages, artifacts' ∙ artifacts)
