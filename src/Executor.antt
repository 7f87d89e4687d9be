-- ===== src/Executor.antt =====
-- src/executor.ts: the bridge from A2A messages to calls of the OpenClaw gateway. Fragments reads
-- messages, Response the answers of agents, Files checks file parts, Contexts keeps the contexts of
-- tasks, Rpc is the connection, and Bridge publishes the states of a task.
pub mod Fragments
pub mod Filled
pub mod Response
pub mod Answers
pub mod Files
pub mod Parts
pub mod Accepted
pub mod Nested
pub mod Contexts
pub mod Rpc
pub mod Promises
pub mod Bridge
pub mod States
mod Tests
