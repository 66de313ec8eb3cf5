-- ===== src/Lib.antt =====
-- A model of cool-admin-go-next: its messages, sessions and risk control, and the parts of
-- the framework about them.
--
-- The outbox (cool-next/outbox) stores a message in the transaction that causes it and delivers it
-- later. An enqueuer inserts a row; a worker claims rows that are due, with a lease and a fresh
-- token, publishes each, renews its lease meanwhile, and marks it sent, to be retried, or dead; an
-- operator lists, shows and replays dead rows and purges sent ones; a consumer marks each message in
-- its inbox, in the transaction in which its handler runs.
--
-- What models what:
--   Outbox/Record      cool-next/outbox/store/store.go (Record, Status, validMessageID, NewRecord) and
--                      the row types of database.go (storedRecord.toRecord, storedMetadata.toMetadata)
--   Outbox/Statements  cool-next/outbox/store/sql.go: which rows each statement touches, what it sets
--   Outbox/Store       cool-next/outbox/store/database.go: Monad the statements with their failures,
--                      Claim (Claim, Renew, MarkSent, MarkRetry, MarkDead), Upkeep (Enqueue,
--                      CleanupSent, List, Show, ReplayDead), Inbox (InsertIfAbsent)
--   Outbox/Change      the steps that the store's operations are made of; Outbox/Runs, any sequence
--                      of operations; Outbox/Invariant, Fencing, Holding and Claims, what is proved
--   Outbox/Backoff     retryDelay (worker.go), consumerDelay (consumer.go) and riskLockDuration
--                      (cool-next/risk/risk.go)
--   Outbox/Settings    cool-next/outbox/config.go and the checks of worker.go, consumer.go and
--                      enqueuer.go
--   Outbox/Worker      cool-next/outbox/worker.go: Batch (claimBatch), Publish (publish, renew,
--                      finishFailure), Lifecycle (poll); Outbox/Publishing, what is proved of them
--   Outbox/MessageId   newMessageID and checkMessageID (cool-next/outbox/outbox.go)
--   Outbox/Envelope    Restore and the checks of its parts (cool-next/outbox/outbox.go)
--   Outbox/Consumer    Deliver (cool-next/outbox/consumer.go); Outbox/Delivery, what is proved of it
--   Risk/Memory        cool-next/risk/risk.go: the state and the cleaning of memoryRiskBackend
--   Risk/Operations    its operations (allowCaptcha, saveCaptcha, consumeCaptcha, allowLogin,
--                      recordLoginFailure, clearLoginFailure); Risk/Runs, any sequence of them;
--                      Risk/Capacity, Captchas and Locks, what is proved of them
--   Risk/Breaker       Service.execute and the state under stateMu; Risk/Recovery, its theorem
--   App                cool-next/core/app/lifecycle.go: Lifecycle, startAssembly and Stop; Assembly,
--                      StartDefinition and scanAssembly; its other modules, what is proved of them
--
-- The risk service (cool-next/risk) limits captchas and logins. Its memory backend is one state
-- under a mutex, so that an operation is one step; before Redis stands a breaker, whose requests
-- overlap: the model keeps the requests in flight and takes their ends in any order.
--
-- An application (cool-next/core/app) initializes and starts its components in the order of their
-- dependencies and stops them in the opposite one. Each component and transport of the model carries
-- what its hooks return, and the log of an application is the list of the hooks that were called.
--
-- Authentication (cool-next/auth) keeps a session for each login. A service verifies a token against
-- its session, refreshes it, and asks an authorizer; a store keeps the sessions. The service works on
-- the interfaces Codec and Store, which are records in the model, and the memory store fills the
-- second one.
--   Auth/Session       cool-next/auth/identity.go and store.go: Principal, Snapshot and their checks
--   Auth/Decimal, Wire cool-next/auth/store.go: encode, decode and parseUint64
--   Auth/Store         cool-next/auth/store.go: MemoryStore; its children, any sequence of requests,
--                      a specification that never deletes, and what is proved
--   Auth/Service       cool-next/auth/identity.go: Create, verify, RefreshWith; Authorization, Access,
--                      Authenticate and Authorize (perm.go); its other children, what is proved
--   Auth/Ids, Permission  cool-next/auth/perm.go: NormalizeIDs and its callers, DerivePermission
--
-- The plugin host (cool-next/plugin/host/manager) shares the product of a compilation among all
-- references to an artifact, and drains a published plugin before it shuts it down. Its mutexes make
-- each method, and each stretch between two waits, one event; the model takes the events in any order.
--   Plugin/Cache       cache.go: the entries and their operations; Events, Phases, Counting, Products
--   Plugin/Generation  generation.go: acquire, release, beginDrain, shutdown; Draining, its theorems
--
-- The code generator (cool-next/codegen) builds components after what they depend on.
--   Codegen/Topology   topology.go: topologicalOrder, and compareComponents (graph.go); its children,
--                      what is proved of the order
--   Codegen/Cycle      topology.go: findComponentCycle; Cycle/Modules, findModuleCycle and
--                      cyclePos; its other children, what is proved of both searches
--
-- The model's numbers. A time is a count of microseconds and a duration of the settings a count of
-- nanoseconds, both natural numbers: the code refuses durations below 0 before it uses them. A
-- product that the code forms in an int64 is written `% 2 ^ 64`, and is negative from 2 ^ 63 on where
-- the code compares it afterwards. Counts of attempts are natural
-- numbers: the code compares them with a limit of 32 bits. SQLite's calendar arithmetic keeps
-- milliseconds; the model keeps the microseconds that the statement is given. The times and durations
-- of the risk service share one unit, whichever it is.
--
-- The database is two tables, a clock, the number of tokens that have been drawn, and for each
-- statement to come whether it works, is refused as busy, is refused otherwise, or runs without its
-- result being read. A transaction gives the tables back as they were when it fails. Other workers
-- and operators act between two operations: a run is any list of calls, each with the time that has
-- passed before it. Rows that another transaction has locked are a parameter of a claim.
--
-- The one loop that is bounded by a constant in the code, the repetition of a claim on a busy SQLite
-- database, has eight attempts in the model as there. The order of the components and the depth of the
-- search for a cycle are bounded by the number of components: the loop takes a component once, and a
-- nested call visits one that was not visited. Every other loop is structural. A sort of the standard
-- library is an insertion sort, and keys that compare as equal may stand in any order there.
--
-- Parameters stand for what is not in the repository: the random sources, the JSON decoder, the
-- publisher, the message handlers, and the token codec. A stored session is the values of its JSON
-- object; its times are nanoseconds, and the digits of a number are its own fuel, since a quotient by
-- ten is smaller.
--
-- Not modelled: the worker's timers and goroutines, the broker adapter, the probe of the database's
-- catalogue, and the parts of the framework that are reflection over Go types, HTTP or SQL drivers.
mod Common
pub mod App
pub mod Auth
pub mod Codegen
pub mod Outbox
pub mod Plugin
pub mod Risk
