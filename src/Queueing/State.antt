-- ===== src/Queueing/State.antt =====
-- The data of src/queueing-executor.ts.
use claw_crony.Base.{ℕ, String, Option, List}
use claw_crony.Base.Dict.{Dict}

-- `RequestContext`, as far as the executor reads it.
pub record Request : Type 0 where
  pub task_id : String
  pub context_id : String
  pub agent_id : Option String

-- `QueuedTaskEntry`. The serial number stands for the object: its bus, `resolve` and `reject`.
pub record Entry : Type 0 where
  pub request : Request
  pub serial : ℕ

-- `TerminalTaskState`
pub data Terminal : Type 0 where
  completed failed canceled rejected : Terminal

-- A status that a delegate may publish: a terminal one, or any other.
pub data TaskState : Type 0 where
  terminal : Terminal → TaskState
  ongoing : String → TaskState

-- `AgentExecutionEvent`: one with a status, and the text of its first part where that is a text part.
pub data Event : Type 0 where
  status : TaskState → Option String → Event
  other : Event

-- The texts that the executor publishes with a task event of its own.
pub data Notice : Type 0 where
  overloaded : Notice
  queued_at : ℕ → Notice
  canceled_while_queued : Notice

pub data Effect : Type 0 where
  published : ℕ → TaskState → Notice → Effect
  forwarded : ℕ → Event → Effect
  bus_finished resolved : ℕ → Effect
  thrown : ℕ → String → Effect
  delegated : ℕ → Effect
  cancel_delegated : String → Effect
  task_queued : String → String → ℕ → ℕ → Effect
  task_started : String → String → String → ℕ → ℕ → Effect
  task_finished : String → String → Terminal → ℕ → ℕ → ℕ → Option String → Effect
  queue_rejected : String → String → ℕ → Effect

-- A `runEntry` that waits for the delegate.
pub record Running : Type 0 where
  pub entry : Entry
  pub started_at : ℕ
  pub final_state : Option Terminal
  pub final_error : Option String

pub record Executor : Type 0 where
  pub max_concurrent : ℕ
  pub max_queued : ℕ
  pub queue : List Entry
  pub pending : Dict Entry
  pub active : ℕ
  pub running : List Running
  pub next_serial : ℕ
  pub trace : List Effect
