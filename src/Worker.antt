-- ===== src/Worker.antt =====
-- packages/worker/src/index.ts: the worker that drives runs. Scheduler is its queue with budgets,
-- State its state and persistence, Runs the life of one run, and the other modules prove.
pub mod Scheduler
pub mod Budgets
pub mod Finished
pub mod Schedules
pub mod State
pub mod Runs
pub mod Lifecycle
pub mod Persisting
pub mod Terminal
pub mod Endings
pub mod Driven
pub mod Executing
pub mod Leases
pub mod Takeovers
pub mod Dispatch
pub mod Late
pub mod Executed
pub mod Resync
pub mod Recalled
pub mod Restarts
