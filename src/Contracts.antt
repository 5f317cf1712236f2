-- ===== src/Contracts.antt =====
-- The records that the services exchange (packages/contracts/src). A field whose type is a single
-- literal has one value and is left out, an optional or nullable field is an `Option`, and a record
-- that extends another has the fields of both.
pub mod Json
pub mod Workspace
pub mod Operation
pub mod Artifact
pub mod Brief
pub mod Run
pub mod Evidence
pub mod Reproduction
pub mod Dataset
pub mod Experiment
pub mod Validation
pub mod Claim
pub mod Manuscript
pub mod State
pub mod Event
