-- ===== src/Storage.antt =====
-- packages/run-storage/src/index.ts: `RunStorage`, which keeps the files of a run.
pub mod Disk
pub mod Replacing
pub mod Steps
pub mod Crashes
pub mod Locks
pub mod Owners
pub mod Names
pub mod Events
pub mod ArtifactIndex
pub mod Artifacts
pub mod RoundTrip
