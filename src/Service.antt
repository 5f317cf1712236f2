-- ===== src/Service.antt =====
-- packages/project-service/src/index.ts: the guarded commits of ProjectCoordinator. Each takes a
-- record that has been parsed, checks it against the state that it loads, and then returns that
-- state or commits the record.
pub mod Host
pub mod Remote
pub mod Spellings
pub mod Guards
pub mod Sources
pub mod Plans
pub mod Outcomes
pub mod Reports
pub mod Specs
pub mod Results
pub mod Reviews
pub mod Claims
pub mod Closure
pub mod Writing
pub mod Commit
pub mod Committing
pub mod Reporting
pub mod Fresh
pub mod Frozen
pub mod Resulting
pub mod Permanence
pub mod Links
pub mod Support
pub mod Exactly
pub mod Listed
pub mod Filed
pub mod Again
pub mod Retry
pub mod Gathered
pub mod Selected
pub mod Packed
pub mod Updating
