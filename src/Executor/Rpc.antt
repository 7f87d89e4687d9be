-- ===== src/Executor/Rpc.antt =====
-- src/executor.ts: the requests of a `GatewayRpcConnection`, from the frame that is sent to the answer of
-- its promise. `settled` holds what the promises were told, in order. Ids are arguments.
use claw_crony.Base.{
  String, Bool, true, false, not, ◌&&◌, Option, none, some, List, [], ◌∷◌, ◌++◌, str_eq,
  if◌then◌else◌,
}
use claw_crony.Base.Dict.{Dict, lookup, insert, erase}

pub record Pending : Type 0 where
  pub method : String
  pub expect_final : Bool

pub data Outcome : Type 0 where
  resolved : String → Outcome
  not_connected timed_out send_failed closed : Outcome
  failed : String → Outcome

pub record Connection : Type 0 where
  pub connected : Bool
  pub pending : Dict Pending
  pub settled : List (String × Outcome)

-- A frame of the kind `res`: its id, whether it is ok, its payload and the status in it, and the
-- message of its error.
pub record Frame : Type 0 where
  pub id : String
  pub ok : Bool
  pub payload : String
  pub status : Option String
  pub error_message : Option String

unfoldable pub settle : String → Outcome → Connection → Connection
settle id outcome c = record c {
  pending = erase id c.pending;
  settled = c.settled ++ ((id, outcome) ∷ []);
}

-- `request`; `sends` is whether the socket takes the frame.
unfoldable pub request : String → String → Bool → Bool → Connection → Connection
unfolding settle
request id method expect_final sends c =
    let entry : Pending = record { method = method; expect_final = expect_final } in
    let added = record c { pending = insert id entry c.pending } in
    if not c.connected
    then record c { settled = c.settled ++ ((id, not_connected) ∷ []) }
    else if sends
    then added
    else settle id send_failed added

-- The timer of a request; it is cleared when the request is settled.
unfoldable pub time_out : String → Connection → Connection
unfolding settle
time_out id c = elim (lookup id c.pending) [ none ↦ c | some entry ↦ settle id timed_out c ]

abbrev pub is_accepted : Option String → Bool
is_accepted none = false
is_accepted (some status) = str_eq status "accepted"

abbrev pub outcome_of : Pending → Frame → Outcome
outcome_of entry frame =
    if frame.ok
    then resolved frame.payload
    else elim frame.error_message [ none ↦ failed entry.method | some message ↦ failed message ]

-- `handleMessage` for a frame of the kind `res`; other messages leave the requests alone.
unfoldable pub handle_response : Frame → Connection → Connection
unfolding settle
handle_response frame c = elim (lookup frame.id c.pending) [
  | none ↦ c
  | some entry ↦
      if entry.expect_final && is_accepted frame.status
      then c
      else settle frame.id (outcome_of entry frame) c
]

abbrev pub rejections : Dict Pending → List (String × Outcome)
rejections [] = []
rejections ((id, entry) ∷ d) = (id, closed) ∷ rejections d

-- `close`, and `rejectAllPending` on the event of a closed socket
unfoldable pub close : Connection → Connection
close c = record c { connected = false; pending = []; settled = c.settled ++ rejections c.pending }

pub data Event : Type 0 where
  requests : String → String → Bool → Bool → Event
  times_out : String → Event
  receives : Frame → Event
  closes : Event

unfoldable pub step : Event → Connection → Connection
unfolding request time_out handle_response close
step (requests id method final sends) c = request id method final sends c
step (times_out id) c = time_out id c
step (receives frame) c = handle_response frame c
step closes c = close c

unfoldable pub run : List Event → Connection → Connection
unfolding step
run [] c = c
run (e ∷ es) c = run es (step e c)

abbrev pub connection : Connection
connection = record { connected = true; pending = []; settled = [] }
