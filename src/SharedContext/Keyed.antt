-- ===== src/SharedContext/Keyed.antt =====
-- src/shared-context.ts: every loaded room stands under its own id, and what a post does to it.
use claw_crony.Base.{
  ◌≡◌, ◌∙◌, refl, ap, sym, inl, inr, String, none, some, List, [], ◌∷◌, str_eq, eq_iff, All,
  Bool-cases,
}
use claw_crony.Base.Dict.{Dict, lookup, insert}
use claw_crony.SharedContext.{apply_event, apply_lines, load_state}
use claw_crony.SharedContext.Types.{
  Room, Event, room_created, room_updated, message_posted, artifact_attached, Line, line, malformed,
  State,
}

abbrev HasOwnId : String × Room → Type 0
HasOwnId (id, room) = room.id ≡ id

-- Every room stands under its id.
abbrev pub IsKeyed : State → Type 0
IsKeyed s = All HasOwnId s.rooms

insert-own : (room : Room) (d : Dict Room) → All HasOwnId d → All HasOwnId (insert room.id room d)
unfolding insert
insert-own room [] h = (refl, tt)
insert-own room ((id, r) ∷ d) (p, h) = elim (Bool-cases (str_eq id room.id)) [
  | inl e ↦ rw e (sym ((eq_iff id room.id).0 e), h)
  | inr e ↦ rw e (p, insert-own room d h)
]

pub apply_event-IsKeyed : (s : State) (event : Event) → IsKeyed s → IsKeyed (apply_event s event)
unfolding apply_event
apply_event-IsKeyed s (room_created ts room) h = insert-own room s.rooms h
apply_event-IsKeyed s (room_updated ts room) h = insert-own room s.rooms h
apply_event-IsKeyed s (message_posted ts m) h = h
apply_event-IsKeyed s (artifact_attached ts a) h = h

pub apply_lines-IsKeyed :
    (s : State) (lines : List Line) → IsKeyed s → IsKeyed (apply_lines s lines)
unfolding apply_lines
apply_lines-IsKeyed s [] h = h
apply_lines-IsKeyed s (malformed ∷ lines) h = apply_lines-IsKeyed s lines h
apply_lines-IsKeyed s (line event ∷ lines) h =
    apply_lines-IsKeyed (apply_event s event) lines (apply_event-IsKeyed s event h)

pub load_state-IsKeyed : (lines : List Line) → IsKeyed (load_state lines)
unfolding load_state
load_state-IsKeyed lines = apply_lines-IsKeyed _ lines tt

lookup-own :
    (id : String) (room : Room) (d : Dict Room)
    → All HasOwnId d
    → lookup id d ≡ some room
    → room.id ≡ id
unfolding lookup
lookup-own id room [] h e = cc
lookup-own id room ((j, r) ∷ d) (p, h) e = elim (Bool-cases (str_eq j id)) [
  | inl same ↦
      sym (ap (λ o. elim o [ none ↦ room.id | some x ↦ x.id ]) (rw same at e))
      ∙ (p ∙ (eq_iff j id).0 same)
  | inr other ↦ lookup-own id room d h (rw other at e)
]

pub IsKeyed-id :
    (id : String) (room : Room) (s : State)
    → IsKeyed s
    → lookup id s.rooms ≡ some room
    → room.id ≡ id
IsKeyed-id id room s = lookup-own id room s.rooms
