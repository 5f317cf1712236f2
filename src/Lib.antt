-- ===== src/Lib.antt =====
-- GeoResearch for DeepSeek Harness: the authoritative state of a research project.
--
-- A project is an event log, `events.jsonl`, and a snapshot, `state.json`. The reducer folds the events
-- into a state; the store appends an event, writes the snapshot anew, and repairs both after a crash.
-- The services read the state, decide, and commit events with the generation that they have read.
--
-- Files and code:
--   Contracts/*            packages/contracts/src/phase2.ts to phase6.ts: the records, with the source's
--                          fields; a union of string literals is a data type, `schemaVersion` is left out
--                          where it is the constant 1, a number that need not be whole is its text.
--   Contracts/State        ProjectReducerState, ProjectStateFile, ProjectSnapshot (phase2.ts).
--   Contracts/Operation    OperationRecord (phase2.ts).
--   Contracts/Event        ProjectEvent with ProjectEventData: the type and the data of an event are one
--                          value, a constructor for each type.
--   Reducer, Reducer/Apply packages/project-provider-files/src/reducer.ts: reduceProjectEvent, with the
--                          updates of single maps in Reducer/Maps.
--   Reducer/Downstream     downstreamArtifactIds; its `while` loop is recursion on fuel.
--   Reducer/View           projectSnapshot and readinessFor; localeCompare is a parameter.
--   Store/Disk             what a reader can make of the two files.
--   Store/Log              packages/project-provider-files/src/store.ts: readEventLog, parseEvent,
--                          replayEvents, appendEvent, createEvent.
--   Store/Snapshot         parseStateFile, createStateFile, isLegacyAdditiveSnapshot, readConsistentLocked.
--   Store/Commit           createProject, load, commit, commitLocked, validateCommitRequest;
--                          initialProjectBinding (binding.ts). Store/Creation is about createProject.
--   Store/Crashes          loads, commits and crashes in any sequence, as steps between disks, against the
--                          history of the project: its events and the state that they make. A last line
--                          without its newline counts as an event, as readEventLog has it.
--   Store/Operation        executeOperation, executeOperationLocked, commitRecoveredOperation, readOperation.
--   Provider               packages/provider-lifecycle/src/index.ts: ProviderLifecycle; Provider/Steps has
--                          the pieces in any order.
--   Validation             packages/contracts/src/phase6.ts: deriveValidationOverall.
--   Runs                   packages/project-service/src/index.ts: commitRunRecord; Runs/Formal has
--                          assertFormalRunBinding. Service/Updating is about runs under all commits.
--   Service/Commit         packages/project-service/src/index.ts: the guarded commits of
--                          ProjectCoordinator: commitSourceRecord, commitEvidenceRecord,
--                          commitRepositoryAudit, commitReproductionPlan, commitReproductionTestSpec,
--                          commitReproductionReport, commitExperimentSpec, commitResults,
--                          commitValidation, commitReview, commitClaimRecord, commitWritingPacket,
--                          commitManuscript. Proposal has a constructor for each, Envelope the fields
--                          that their requests share; commit_proposal is the body of all, with what a
--                          method checks before and after the load as precheck and guard.
--   Service/Guards         assertCurrentArtifact, assertCurrentBinding, currentSubjectDigest,
--                          validationSubjectKey and the end of every check: the record is on file with
--                          the same digest, or with another one, or it is new.
--   Service/Sources, Plans, Reports, Specs, Results, Reviews, Claims, Writing
--                          what each commit checks; Reviews has assertReviewRecordAuthority.
--   Service/Claims/*       assessClaimSupport, claimSupportRefCurrent, calculateClaim.
--   Service/Remote         normalizeRepositoryUrl on lists of code points; Service/Spellings is about it.
--   Service/Closure        collectWritingInputs, the inputs that the claims of a packet rest on.
--   Service/Outcomes       packages/contracts/src/phase4.ts: reproductionReportOutcomeViolation.
--   Policy                 packages/policy-service/src/index.ts: guard for a managed specialist, with
--                          guardSpecialistSkillProtocol, guardAndConsumeSpecialistToolBudget,
--                          onToolResult and the delivery of the contract, as steps on the lease.
--                          Task types, tools and skills are known by their names.
--   Policy/Roles, Tasks    packages/contracts/src/index.ts: the tools, the skills and the tasks of each
--                          role; Tasks has the checks of withManagedDelegation on a contract.
--   Dict, Prelude          objects used as maps, lists, results of functions that may throw.
--   Examples/*             the theorems at small projects.
--
-- Conventions. A function that may throw returns a `Result`; a `GeoResearchError` is known by its code,
-- all other errors are one. An object used as a map is an association list in insertion order, without
-- double keys as far as `put` makes it. A function that writes to a disk returns the disk that it leaves.
--
-- Bounds. Sequence numbers and generations are unbounded; the code refuses those above 2^53 - 1, which a
-- log would reach after as many events. `downstream_artifact_ids` has fuel for two rounds more than there
-- are artifacts: each round but the last marks one more artifact as stale, so the fuel is enough.
--
-- Callbacks. The action and the recovery of an operation are functions on the rest of the world, and
-- return a value or throw; they do not touch the file of the operation.
--
-- Parameters. `Encoding` has what the store computes with and this library does not: digests over
-- canonical JSON, canonical JSON itself, the test of time stamps and the id of a binding; `digest_json` and
-- `digest_identity` are the digests of the result of an operation and of the identity of a run. `Host`
-- has what the services compute with: canonical JSON and the hash of its text, toLowerCase,
-- localeCompare and the arithmetic of numbers, which are texts. The only fact assumed is the format
-- of a digest. No theorem assumes that digests do not collide.
--
-- Not modelled: the mutex between processes (one caller runs at a time, and no mutex was abandoned), the
-- sweeps of recoverLocked over operations and orphaned objects, I/O errors (but for what a write leaves
-- that fails or dies within the append or between two writes: Store/Crashes), a `cancel` hook that disposes
-- of its own provider, the parsers of records (a record reaches a service parsed), the other
-- commits of the project service (briefs, artifacts, uploads, deliverables, delegations), its tools and the
-- resolution of projects, the identities of agents and the payload of a delegation, most of the other
-- services, the installer, the file and evidence providers, the Python worker.
mod Prelude
pub mod Dict
pub mod Contracts
pub mod Reducer
pub mod Store
pub mod Provider
pub mod Validation
pub mod Runs
pub mod Service
mod Examples
pub mod Policy
