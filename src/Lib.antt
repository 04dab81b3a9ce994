-- ===== src/Lib.antt =====
-- AutoPW runs browser audits for a coding agent: a control plane accepts tool calls, an
-- operation registry keeps a durable record of each call, a worker carries the operations out
-- under budgets and drives each run through fixed phases, and a gate gives the verdict. This
-- library models the registry, the worker with its leases, the storage of runs, the control plane,
-- the policy by which a host authorises a request, the projection of a plan, the synthesis of payloads,
-- the audit with the triage of failures, and the gate.
--
-- Files and the code they are about
-- - Prelude (with Prelude/Tests, Lists, Maps, Results): Boolean tests, lists, `Map` as an
--   association list in insertion order, and results that may be a thrown error.
-- - Domain: the enumerations of packages/mcp-contracts/src/types/enums.ts.
-- - Json: JSON values and `canonicalJson` of packages/operation-registry/src/index.ts, whose
--   text decides whether two requests have the same parameters. Json/Order is about the order of
--   keys.
-- - Registry: `OperationRegistry` of the same file. Registry/Records holds its interfaces,
--   Registry its state (the maps in memory, the files by name, the index file, the tombstones)
--   and its methods: `create`, `update`, `updateRun`, `get`, `listByWorkspace`, `sweep`, `reload`
--   and `queryAfterTombstone`. A method that changes state takes the registry and gives the next
--   one, or the error that is thrown. Registry/Invariant, Updates and Sweep hold the theorems on
--   its consistency, Idempotency and Keys those on repeated requests, Versions those on progress,
--   Expiry those on what a sweep leaves, and Durable those on the files against the memory.
-- - Lease: packages/worker/src/lease.ts. Lease/Takeover is about takeovers.
-- - Worker: `FixtureWorker` of packages/worker/src/index.ts. Worker/Scheduler holds the queue
--   and the counters of `enqueue`, `_tick` and `stop`; Worker/Budgets, Finished and Schedules are
--   about the budgets under every interleaving of them. Worker/State holds the runs, the registry
--   and the stored states with `_persistRun`; Worker/Runs the terminal paths; Worker/Lifecycle
--   the creation, the drive and the cancellation of a run; Worker/Leases resumption and takeover
--   with `compareAndSwapJson` of packages/run-storage/src/index.ts; Worker/Executing an audit that
--   the runtime executes, Worker/Dispatch `_run` with a function for each branch, and Worker/Resync
--   `_resyncFromRegistry`. Worker/Persisting, Terminal, Endings, Driven, Takeovers, Late, Executed,
--   Recalled and Restarts hold the theorems about them.
-- - Gate: `evaluateGate` of packages/gate/src/index.ts. Gate/Verdict is about the verdicts.
-- - Control: packages/control-plane/src/index.ts. Control/Paging holds `pageItems` and
--   `pageMeta`, Control/Replies the result objects and the counts, Control/Queries and
--   Control/Answers `_handleQuery` with one function for each tool, Control/Authorize
--   `authorize`, Control/Creation `_handle`. Control/Counting, Isolation and Refusals hold theorems
--   about them. What the
--   artifact store answers is an argument.
-- - Security: `TrustResolver.resolve` and `SecurityPolicyEngine.authorizeRequest` of
--   packages/security/src/index.ts. Origins and paths are normalised by arguments. Security/Trust
--   is about what a policy grants, and Security/Network holds `BrowserNetworkGuard`.
-- - Triage: `triageFailure` of packages/triage/src/index.ts, which says whose fault a failure
--   is.
-- - Audit: `auditExecution` of packages/audit/src/index.ts: its reconciliations, with the records in
--   Audit/Records, the issues in Audit/Issues, `buildCoverageMetrics` in Audit/Metrics and the outcome in Audit/Outcome.
--   Audit/Reconciled is about what the reconciliations mean.
-- - Planner: `planExecutionInstances` of packages/planner/src/index.ts. Planner/Projection is
--   about the batches and executions that it holds, with Planner/Counting on how often they do.
-- - Storage: `RunStorage` of packages/run-storage/src/index.ts. Storage/Disk holds a file with the
--   two files that its replacement uses and the calls on them, Storage/Replacing
--   `_writeFileLocked` and its helpers, Storage/Locks the lock folders, Storage/Events the event
--   log, Storage/Names the patterns for names, Storage/ArtifactIndex and Storage/Artifacts the
--   artifacts and their index. Storage/Steps, Crashes, Owners and RoundTrip hold theorems about them.
--   An acquisition of a lock is one step: how two of them that overlap interleave is not modelled.
-- - Payload: packages/payload-synthesis/src/index.ts, on the nodes of
--   packages/application-graph/src/index.ts, which are in Payload/Nodes: the payloads of operations,
--   and in Payload/Bindings and Payload/Fixtures the fixtures of resources. Payload/Variants is about
--   the variants.
-- - Examples: tests, and each theorem applied at a concrete input.
--
-- How the parts interact. The worker holds the registry by reference: in the model a worker's
-- state has a registry in it, and `persist_run` threads it through `update_run`. Two workers
-- share a run only through its stored state, which both change by compare-and-swap.
--
-- Bounds and fuel. Times, counters and versions are natural numbers; the source's are integers
-- below 2^53. A confidence counts millionths. Printing a number takes its successor as fuel,
-- which is more than its digits. All other loops recurse on the list they walk. A method reads
-- the clock once: its readings within one call are one argument.
--
-- What is not modelled. Random ids, the clock, the files that cannot be deleted, whether a lock
-- is free and the floating-point comparison of a percentage are arguments; so are the digests, the
-- locale's order of texts, the paths of `node:path`, the resolution of a path against the real file
-- system, and which calls of the file system fail. A mutator that a caller passes to `update` is any
-- function on records. What the runtime reports and returns is an argument of a run. The packages
-- that discover, derive, compile, execute and report are left out, and of the planner all but the
-- projection; so are logging, the creation of directories, the truncation and the contract check of results
-- that `handle` puts around `_handle`, the order in which a folder lists its files, and a crash
-- between the writes of one method other than the replacement of a file.

pub mod Prelude
pub mod Lease
pub mod Json
pub mod Domain
pub mod Registry
pub mod Worker
pub mod Gate
pub mod Triage
pub mod Audit
pub mod Planner
pub mod Storage
pub mod Payload
pub mod Security
pub mod Control
pub mod Examples
