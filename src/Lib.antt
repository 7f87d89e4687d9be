-- ===== src/Lib.antt =====
-- A verification library for claw-crony, an OpenClaw plugin that connects agents over a Hub and
-- the A2A protocol.
--
-- The program. An inbound A2A request goes through HTTP routes to the queueing executor
-- (src/queueing-executor.ts), which runs a bounded number of tasks and queues or refuses the others,
-- and tells the telemetry (src/telemetry.ts) of each. A task that runs is turned into a call of the
-- OpenClaw gateway (src/executor.ts) once its files have passed src/file-security.ts. Old finished
-- tasks are deleted by src/task-cleanup.ts. An outbound message is routed by
-- src/routing-rules.ts and sent by src/client.ts to a peer that the peer
-- health manager (src/peer-health.ts) calls available, over the transports that
-- src/transport-fallback.ts orders, with the retries of src/peer-retry.ts; its outcome goes back to the
-- health manager. The plugin registers itself with the Hub (src/hub-registration.ts), which matches
-- it with agents (src/hub-resolve.ts, src/connection-session.ts); official agents of the Hub are called
-- by src/official-agent-call.ts. Gateways of one operator talk through the envelopes, signatures, nonces,
-- idempotency keys, the transport and the outbox of src/internal. Agents share rooms in a log of events
-- (src/shared-context.ts), and the client keeps what it has asked of the Hub in one file
-- (src/connection-state.ts). What happens is kept, redacted, by src/history.ts and src/audit.ts.
--
-- The files. Each component has a module with its data and operations, and below it modules named
-- for what they prove, and Tests with runs and instances.
--   Base            shared helpers: Boolean tests, lists, `Map` as Dict, sorting as Sort and Order,
--                   texts as Text, JSON values as Json, Integers
--   Queueing        src/queueing-executor.ts: execute, cancelTask, runEntry, drainQueue
--   Executor        src/executor.ts: the parts of messages and answers, the checks of files, the
--                   contexts, the requests of the gateway connection, dispatch and execute
--   FileSecurity    src/file-security.ts: addresses, URIs, media types and sizes, redaction for logs
--   RoutingRules    src/routing-rules.ts: parseRoutingRules and matchRule
--   Client          src/client.ts: sendMessage and the fallback over transports
--   PeerHealth      src/peer-health.ts: the states, the breaker and the half-open probe
--   Telemetry       src/telemetry.ts and the collector of src/internal/metrics.ts
--   Retry           src/peer-retry.ts: withRetry and calcDelay
--   Transport       src/transport-fallback.ts: orderTransports, isRetryableTransportError
--   Hub             src/hub-resolve.ts (Values, Resolve), src/hub-registration.ts (Registration),
--                   src/hub-discovery.ts (Discovery) and src/hub-auth.ts (Auth), with the records of src/hub-match.ts and
--                   src/types.ts that they read (Agents)
--   Connection      src/connection-descriptor.ts, src/connection-session.ts, src/protocols
--   Official        src/official-agent-call.ts: the search for sensitive data (Findings), the choice of
--                   the action (Action, Declared, Named, Selected), its URL (Url), the checks before a call (Prepare), the call
--                   (Course)
--   ConnectionState src/connection-state.ts: load, save and the three methods that record
--   SharedContext   src/shared-context.ts: the events, the writing and the reading operations
--   History         src/history.ts, and src/audit.ts as Audit
--   TaskCleanup     src/task-cleanup.ts: runTaskCleanup
--   Internal        src/internal: Idempotency (idempotency.ts), Nonces (the cache of security.ts),
--                   Outbox (outbox.ts), Envelope (envelope.ts), Routing (routing.ts), Inbox
--                   (transport.ts), Signing (the rest of security.ts)
-- A definition has the name of its function in lower case with underscores. A method is a function
-- from the state to the state and its result; a handler with awaits is cut at them, and a history
-- chooses how the steps interleave. The clock, random numbers and generated ids are arguments. A
-- throw is a value. Calls that only log are left out.
--
-- Termination. Loops are structural, but for drainQueue, whose fuel is the length of the queue: a step
-- takes an entry off the queue, so any larger fuel gives the same. The retry loops count the attempts
-- that are left. The digits of a number are printed with the number itself as fuel, which is never
-- less than the count of its digits.
--
-- Parameters. Date.parse, regular expressions, the URL class, JSON.parse and JSON.stringify, the tests of
-- node:net, fetch, the name service and the gateway are arguments of what uses them, without an
-- assumption, but for the one of Official.Hosts: a URL keeps its origin when its path or its search
-- parameters are assigned. A text is the list of its character codes, in the newer components, and
-- toLowerCase changes the letters A to Z of it; elsewhere texts are strings, and trim and toLowerCase
-- are arguments.
--
-- Not modelled. The network, the disk, cryptography and the SDKs are not code of the repository.
-- index.ts, the other clients of the Hub, the handshake of the gateway connection and the making of the agent card
-- and of keys are mostly calls of those. The formatting of texts for people and listRooms are left out.
-- Numbers are natural numbers or integers without a bound where the source has doubles, which are exact
-- for the counts and times at hand.
-- Some things are narrower than in the source. An outbox history has the calls that the relay makes; nothing else in the repository
-- calls markSending, markSent and markFailed. What a delegate publishes after its run has settled is dropped. sendMessage is one step on the
-- health manager, though it awaits between isAvailable and the recording. Signing does not throw, where the source
-- has a key that crypto refuses. The text fields of an envelope hold texts only, and times are not before 1970. A line of the history file
-- is read back as the entry that was written.
pub mod Base
pub mod Client
pub mod Connection
pub mod ConnectionState
pub mod Executor
pub mod FileSecurity
pub mod History
pub mod Hub
pub mod Internal
pub mod Official
pub mod PeerHealth
pub mod Queueing
pub mod Retry
pub mod RoutingRules
pub mod SharedContext
pub mod TaskCleanup
pub mod Telemetry
pub mod Transport
