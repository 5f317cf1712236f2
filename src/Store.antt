-- ===== src/Store.antt =====
-- packages/project-provider-files/src/store.ts: the event log and the snapshot of a project on disk.
pub mod Disk
pub mod Log
pub mod Snapshot
pub mod Chain
pub mod Synced
pub mod Durability
pub mod Commit
pub mod Operation
pub mod Crashes
pub mod Creation
