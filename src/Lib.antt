-- ===== src/Lib.antt =====
-- The core of the CLI model gateway: a service that routes requests to models, with second attempts and
-- fallbacks, and its agent, which hands tasks to workers, runs their steps as jobs, and asks a person
-- before anything risky is done.
--
-- Files and sources:
--   Pool/Leases      src/agent/pool/leases.ts (LeaseManager): a key has one holder at a time, and each grant
--                    carries a fencing token.
--   Pool/Workers     src/agent/pool/worker-pool.ts (WorkerPool): a queue of jobs, their runs under limits,
--                    retries, stops and the close. It takes its leases from Pool/Leases.
--   Policy           src/agent/policy/risk.ts (classify, autoRunDigest, canAutoRun).
--   Checker/Secrets, Checker/Commands
--                    src/agent/checker/checker.ts (hasSecret, policyViolation).
--   Checker/Check    src/agent/checker/checker.ts (check) and src/agent/checker/gate.ts (isDone): the receipts of
--                    artifacts and the gate that asks for one.
--   Log              src/agent/store/sealed-log.ts (SealedLog): a chain of records in a file; in
--                    Log/Fenced its appends are guarded by the leases.
--   Approvals        src/agent/approvals/inbox.ts (ApprovalInbox): items that a person approves, kept in the log.
--   Coordinator      src/agent/coordinator/coordinator.ts (Coordinator.advance, finish): the steps of a plan, their
--                    approvals and the children that are started for them. The inbox, the log, the
--                    delegate tool and the checker are functions that it is given; in Coordinator/Trace
--                    they write a trace and answer as an oracle says.
--   Scheduler        src/agent/scheduler/auto-run.ts (AutoRunScheduler.add, tick).
--   Utils/Lru        src/utils/lru-map.ts (LruMap).
--   Utils/OutputLimit
--                    src/utils/output-limit.ts.
--   Utils/Execution  src/utils/execution-policy.ts (ExecutionPolicy): the attempts, the deadline and the
--                    receipts of one request.
--   Utils/Shell      src/utils/shell.ts (shellEscape), with a reader that splits quoted text
--                    into words.
--   Stats            src/stats/model-stats.ts (ModelStatsTracker): the outcomes of each model, the kinds of its
--                    failures, and the cooldown that they bring.
--   Providers/Bindings, Providers/Auto
--                    src/providers/registry.ts (create, the choices of models), src/utils/request-capability.ts and
--                    replaySafeChat of src/utils/upstream-error.ts.
--   Providers/Next, Providers/Run, Providers/Model
--                    src/providers/registry.ts (findNextModelId, runModelWithin, runModel): a request to a model
--                    with its second attempts and its fallbacks. They ask Stats which models to skip and
--                    Utils/Execution whether an attempt is within the limits.
--   Providers/Stream src/providers/registry.ts (runModelStreamWithin): the same for an answer that is passed on
--                    while it comes.
--   Memory           src/agent/memory/index.ts (AgentMemory, KeywordIndex): records in layers, guarded when they are
--                    written, and their retrieval within a budget of text.
--   Delegate         src/agent/delegate/delegate-tool.ts (DelegateTool): jobs that are handed to the pool, their
--                    check and their restart.
--   Decisions        src/agent/router/router-client.ts (NativeRouterClient.decide): a decision of a model within its
--                    budget of calls.
--   Base             tests, lists, tables for a JavaScript Map, outcomes that throw, and texts.
--
-- Conventions. A method is a function from the state before to an outcome: `returns` a value or `throws`
-- a message, each with the state after, so what was written before a throw stays written. A reading of
-- the clock and a random identifier are arguments; a call that reads the clock twice takes both readings.
-- Times, counts and lifetimes are natural numbers; a lifetime that is not positive is 0. A priority may
-- be negative. A text that the program walks is the list of its codes. A Map is a list of pairs in the
-- order of insertion. The event callback of the pool is a parameter that may change the world outside
-- and may throw. The runner of jobs is not called in the model: how a run ended is given to `settle`.
-- The cipher, the hash and the canonical text of the log are the record `Envelope`, whose one law is
-- that a sealed record opens under the associated data that it was sealed with.
--
-- A write to the log's file, or its flush, that fails half way does not occur: `append` writes the whole
-- line or throws before it.
--
-- The loop of `pump` takes fuel, the length of the queue when it starts: each round that goes on takes
-- a job out of the queue.
--
-- In Providers a call threads the state of one request and may throw an error. A provider, the clock, a
-- wait and the judgement of an answer are the record `Services`, over any world; Providers/Hoare has the
-- rules by which their laws are proved. The loop of runModelWithin takes fuel: a turn that goes on visits
-- one more registered model, so one more than their number is enough. The scan for a fallback takes as
-- much as there are pending ids and ids that the models name.
--
-- Not modelled: files, locks, timers as such, processes and HTTP; of the coordinator its constructor,
-- submit, workerEvent and checkChild; of the delegate tool its summaries and lists; the wrapper
-- runModelStream and the benchmarks of the registry; the adapters of providers, the routes and the
-- scripts.
pub mod Base
pub mod Pool
pub mod Policy
pub mod Checker
pub mod Log
pub mod Approvals
pub mod Utils
pub mod Coordinator
pub mod Scheduler
pub mod Stats
pub mod Providers
pub mod Memory
pub mod Delegate
pub mod Decisions
