-- ===== src/Queueing.antt =====
-- src/queueing-executor.ts: the bounded queue in front of the agent executor. JavaScript runs each
-- handler to its next `await`, so a call below is one such run: `execute`, `cancel`, an event that
-- the delegate publishes (`observe`), and the end of the delegate's promise (`settle`). The delegate
-- and the event buses are not part of the file: a run chooses their events, and what is called on
-- them is recorded in `trace`, newest first. A promise of an `async` delegate never ends before
-- `runEntry` has suspended.
pub mod Bounds
pub mod Fifo
pub mod Counts
pub mod Custody
pub mod History
pub mod Tests
mod State
pub use State.*
use claw_crony.Base.{
  ℕ, zero, suc, ◌+◌, ◌-◌, max, String, Bool, Option, none, some, List, [], ◌∷◌, ◌++◌, ltb, leb,
  ◌==◌, if◌then◌else◌, str_eq, length, find?,
}
use claw_crony.Base.Dict
use claw_crony.Base.Dict.{Dict}

-- The constructor.
pub init : ℕ → ℕ → Executor
init max_concurrent max_queued = record {
  max_concurrent = max 1 max_concurrent;
  max_queued = max 0 max_queued;
  queue = [];
  pending = [];
  active = 0;
  running = [];
  next_serial = 0;
  trace = [];
}

abbrev pub has_id : String → Entry → Bool
has_id id e = str_eq e.request.task_id id

-- `findIndex` and `splice(index, 1)`: the first entry with the id goes.
pub queue_delete : String → List Entry → List Entry
queue_delete id [] = []
queue_delete id (e ∷ es) = if has_id id e then es else e ∷ queue_delete id es

-- `pickAgentId`
pick_agent_id : Request → String
pick_agent_id r = elim r.agent_id [ none ↦ "default" | some id ↦ id ]

abbrev pub started : Entry → ℕ → Running
started e now = record { entry = e; started_at = now; final_state = none; final_error = none }

-- `runEntry` up to its `await`.
pub run_entry : Entry → ℕ → Executor → Executor
run_entry e now s =
    let queue = queue_delete e.request.task_id s.queue in
    let active = s.active + 1 in
    record s {
      queue = queue;
      active = active;
      running = s.running ++ started e now ∷ [];
      trace =
          delegated e.serial
          ∷ task_started e.request.task_id e.request.context_id (pick_agent_id e.request) active
              (length queue)
          ∷ s.trace;
    }

-- The two ways in which `execute` does not run the entry at once.
reject_overload : Entry → Executor → Executor
reject_overload e s = record s {
  pending = Dict.erase e.request.task_id s.pending;
  trace =
      resolved e.serial
      ∷ bus_finished e.serial
      ∷ published e.serial (terminal rejected) overloaded
      ∷ queue_rejected e.request.task_id e.request.context_id (length s.queue)
      ∷ s.trace;
}

enqueue : Entry → Executor → Executor
enqueue e s =
    let queue = s.queue ++ e ∷ [] in
    record s {
      queue = queue;
      trace =
          published e.serial (ongoing "submitted") (queued_at (length queue))
          ∷ task_queued e.request.task_id e.request.context_id (length queue) (length queue)
          ∷ s.trace;
    }

abbrev pub admit : Request → Executor → Executor
admit r s = record s {
  pending = Dict.insert r.task_id (record { request = r; serial = s.next_serial }) s.pending;
  next_serial = suc s.next_serial;
}

pub execute : Request → ℕ → Executor → Executor
execute r now s =
    let e : Entry = record { request = r; serial = s.next_serial } in
    if ltb s.active s.max_concurrent
    then run_entry e now (admit r s)
    else if leb s.max_queued (length s.queue)
    then reject_overload e (admit r s)
    else enqueue e (admit r s)

-- `cancelTask`
cancel_queued : Entry → String → Executor → Executor
cancel_queued e id s =
    let queue = queue_delete id s.queue in
    record s {
      queue = queue;
      pending = Dict.erase id s.pending;
      trace =
          task_finished id e.request.context_id canceled 0 s.active (length queue) none
          ∷ resolved e.serial
          ∷ bus_finished e.serial
          ∷ published e.serial (terminal canceled) canceled_while_queued
          ∷ s.trace;
    }

pub cancel : String → Executor → Executor
cancel id s = elim (find? (has_id id) s.queue) [
  | some e ↦ cancel_queued e id s
  | none ↦ record s { trace = cancel_delegated id ∷ s.trace }
]

-- The observer of `createObservedEventBus`.
text_or : Option String → Option String → Option String
text_or none old = old
text_or (some t) old = some t

pub observed : Event → Running → Running
observed (status (terminal completed) text) r = record r { final_state = some completed }
observed (status (terminal t) text) r = record r {
  final_state = some t;
  final_error = text_or text r.final_error;
}
observed (status (ongoing name) text) r = r
observed other r = r

abbrev pub is_run : ℕ → Running → Bool
is_run k r = r.entry.serial == k

pub update_run : (Running → Running) → ℕ → List Running → List Running
update_run f k [] = []
update_run f k (r ∷ rs) = if is_run k r then f r ∷ rs else r ∷ update_run f k rs

pub observe : ℕ → Event → Executor → Executor
observe k event s = elim (find? (is_run k) s.running) [
  | none ↦ s
  | some r ↦ record s {
    running = update_run (observed event) k s.running;
    trace = forwarded k event ∷ s.trace;
  }
]

-- `drainQueue`, on fuel: a round takes at least one entry from the queue.
pub drain : ℕ → ℕ → Executor → Executor
drain zero now s = s
drain (suc fuel) now s = elim s.queue [
  | [] ↦ s
  | next ∷ rest ↦
      let further = drain fuel now (run_entry next now (record s { queue = rest })) in
      if ltb s.active s.max_concurrent then further else s
]

-- How the delegate's promise ends.
pub data Outcome : Type 0 where
  returned : Outcome
  threw : String → Outcome

pub remove_run : ℕ → List Running → List Running
remove_run k [] = []
remove_run k (r ∷ rs) = if is_run k r then rs else r ∷ remove_run k rs

abbrev or_failed : Option Terminal → Terminal
or_failed none = failed
or_failed (some t) = t

-- `finalErrorMessage || message`: an empty text counts as none.
or_message : Option String → String → Option String
or_message none m = some m
or_message (some t) m = if str_eq t "" then some m else some t

abbrev error_of : Outcome → Running → Option String
error_of returned r = r.final_error
error_of (threw m) r = or_message r.final_error m

abbrev answer : Outcome → ℕ → Effect
answer returned k = resolved k
answer (threw m) k = thrown k m

-- `runEntry` from its `await` to `drainQueue`.
pub close_run : Running → Outcome → ℕ → Executor → Executor
unfolding or_message
close_run r out now s =
    let active = s.active - 1 in
    record s {
      pending = Dict.erase r.entry.request.task_id s.pending;
      active = active;
      running = remove_run r.entry.serial s.running;
      trace =
          bus_finished r.entry.serial
          ∷ task_finished r.entry.request.task_id r.entry.request.context_id
              (or_failed r.final_state) (now - r.started_at) active (length s.queue)
              (error_of out r)
          ∷ answer out r.entry.serial
          ∷ s.trace;
    }

pub settle : ℕ → Outcome → ℕ → Executor → Executor
settle k out now s = elim (find? (is_run k) s.running) [
  | none ↦ s
  | some r ↦ drain (length s.queue) now (close_run r out now s)
]

pub data Call : Type 0 where
  executes : Request → Call
  cancels : String → Call
  observes : ℕ → Event → Call
  settles : ℕ → Outcome → Call

pub step : ℕ → Call → Executor → Executor
step now (executes r) s = execute r now s
step now (cancels id) s = cancel id s
step now (observes k event) s = observe k event s
step now (settles k out) s = settle k out now s

pub run : List (ℕ × Call) → Executor → Executor
run [] s = s
run ((now, c) ∷ cs) s = run cs (step now c s)
