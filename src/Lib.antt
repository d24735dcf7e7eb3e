-- ===== src/Lib.antt =====
-- A verification library for the relay between MCP clients and a Host that runs agent sessions.
--
-- The relay keeps services, runs, operations and permission leases in one JSON state file that
-- several relay processes share under a file lock. The state store validates the file, merges each
-- process's view into it, fences it against another authority, and claims idempotency keys. The
-- operation journal holds the operations of one process and claims each new one at the store. A new
-- run's input is validated and its prompt resolved, then prompt admission submits the prompt to the
-- Host and settles the run and its operation by the reply. The event monitor follows the Host's two
-- streams, compares the numbers of events with the durable history by the event sequencer, and asks
-- for the history where they differ. The reconciler then reads the history page by page and brings
-- the run up to date, up to its end, where the permission controller restores the session's
-- permission. The broker facade holds services and runs, and loads and writes them. The
-- notification buffer serves notifications about runs to clients that poll with a cursor. The user
-- interactions are approvals and questions that wait for the run's owner. The authority registry
-- lets one process own a Host. Session routing chooses the session of a run, and model selection
-- sets its model and sets the Host's default back.
--
-- Files, and the code that they model:
--   Base                helpers: lists, JavaScript Maps in insertion order, results, times
--   Types, Types.Json   src/types.ts, and the JSON readers of src/run-events.ts
--   StateStore          src/state-store.ts and src/state-repository/state-schema.ts: the class
--                       RelayStateStore as functions from the files (Disk) and the outcome of the
--                       system calls (Io) to an outcome and the files; Freshest has the choices
--                       between two versions of a record, Merge has mergeBy and mergeStates
--   Lock                src/state-repository/file-lock-facade.ts: Files has the calls of node:fs on a
--                       map from paths to contents, Record the lock's record, inspect and the
--                       comparison, Reclaim reclaimStaleLock, recoverStale and release, Acquire the
--                       loop of acquire. What others do between the calls is an argument, a function
--                       on the files
--   Broker.Journal      src/relay-broker/operation-journal.ts, with the errors of errors.ts
--   Broker.Permissions  src/relay-broker/permission-controller.ts; Broker.Permissions.Gateway has
--                       src/permission-gateway/permission-gateway-facade.ts. The log of a controller
--                       lists what was persisted and what the provider was asked
--   Broker.Admission    src/relay-broker/prompt-admission-controller.ts
--   Broker.Reconciler   src/relay-broker/run-reconciler.ts, one run in its World: the run, the
--                       sessions that are active, the operations and the permissions. History has
--                       historyAfter, Run the parts that only change the run, Finish finalize and
--                       the prompt that is missing, Refresh the method refresh
--   Broker.Facade       src/relay-broker/relay-broker-facade.ts: restoreState, persistState and
--                       interactionOwner; Services starts, opens and stops services
--   Prompts             src/prompt.ts in Base64 and Content, src/relay-broker/run-input.ts in Scope
--   Interactions        src/user-interactions/user-interaction-facade.ts, whose resolved promises are
--                       the list `settled`; Interactions.Answers has validateResponse
--   Authority           src/authority/authority-registry-facade.ts: Registry has acquire and the release
--                       of a lease, Retry the loop of acquireWithRetry
--   Routing.Sessions    src/session-routing/session-routing-facade.ts
--   Routing.Models      src/model-selection.ts
--   Events.Sequencer    src/event-monitoring/event-sequencer.ts
--   Events.Facade       src/event-monitoring/event-monitoring-facade.ts; `sent` lists the notices that
--                       were handed to the sink, the newest first
--   Events.RunEvents    src/run-events.ts: Merge has mergeEvents, Assistant finalAssistantText, Text
--                       utf8Tail
--   Monitoring.Buffer   src/monitoring/notification-buffer.ts and types.ts; Monitoring.Cursor has its
--                       cursors as decimal texts
--   Monitoring.Summary  src/monitoring/monitoring-facade.ts
-- The children of a module hold its proofs; the modules named Tests hold runs on concrete values.
--
-- Encodings. Sequence numbers of events are integers from -1 on, and are stored plus one. A time is a
-- text that toISOString wrote (`iso`, its milliseconds) or a text that Date.parse does not read
-- (`other`). A JavaScript number that may be -Infinity is an Instant, and a difference of two may be
-- NaN. A method that changes an object returns the changed object. Names that the language reserves
-- are changed: `record` is `operation`, `claimed` or `canonical`, `data` is `payload`. Fresh ids, the
-- clock, SHA-256, JSON.parse, JSON.stringify, node:path, the probe of a process, the Host's replies
-- and the outcomes of persisting are arguments.
--
-- Bounds and fuel. `advance` of the sequencer has the number of pending events as fuel, since each
-- round removes one. The binary search of the buffer has the length of the list as fuel, since each
-- round makes the range shorter. The retry loop has one round more than its budget has milliseconds,
-- since each round sleeps for a millisecond at least. `trim` of the event monitor has the size of the
-- map as fuel, since each round removes an entry. The pages of a history are counted by the code's own
-- bound. `acquire` of the file lock has its number of rounds as fuel, and the result `out_of_fuel`
-- beside the code's own time-out.
--
-- Not modelled: that the operations of the store run one after the other under the lock is assumed,
-- not derived from the model of the lock; a failed rename in the quarantine of an invalid file;
-- interleavings of the journal with itself while it waits for the store, and of the two pumps of the
-- event monitor; the texts of most errors; the broker facade's calls on runs; the registry guard,
-- workspace routing, and the servers, adapters and setup around them.
pub mod Authority
pub mod Base
pub mod Broker
pub mod Events
pub mod Interactions
pub mod Lock
pub mod Monitoring
pub mod Prompts
pub mod Routing
pub mod StateStore
pub mod Types
