-- ===== src/Service/Links.antt =====
-- The references between the records of a project: what they name is on file, by its id or by its id
-- and its digest.
pub mod Updates
pub mod Guarded
pub mod Kept
use georesearch_dsh.Dict.{or_empty}
use georesearch_dsh.Contracts.State.{ProjectReducerState}
use georesearch_dsh.Service.Links.Updates.{Refers, Names, Refers-empty}
use georesearch_dsh.Contracts.Workspace.{ProjectBinding, WorkspaceBinding}
use georesearch_dsh.Reducer.{created_state}

pub record IsLinked (s : ProjectReducerState) : Type 0 where
  pub evidence_source : Names (or_empty s.sources) (λ e. e.source_id) (or_empty s.evidence)
  pub audit_source :
      Refers
        (λ w. w.digest)
        (or_empty s.sources)
        (λ a. a.source_id)
        (λ a. a.source_digest)
        (or_empty s.repository_audits)
  pub plan_audit :
      Refers
        (λ w. w.digest)
        (or_empty s.repository_audits)
        (λ q. q.repository_audit_id)
        (λ q. q.repository_audit_digest)
        (or_empty s.reproduction_plans)
  pub test_spec_plan :
      Names (or_empty s.reproduction_plans) (λ t. t.plan_id) (or_empty s.reproduction_test_specs)
  pub test_spec_audit :
      Names
        (or_empty s.repository_audits)
        (λ t. t.repository_audit_id)
        (or_empty s.reproduction_test_specs)
  pub report_plan :
      Refers
        (λ w. w.digest)
        (or_empty s.reproduction_plans)
        (λ r. r.plan_id)
        (λ r. r.plan_digest)
        (or_empty s.reproduction_reports)
  pub report_baseline :
      Refers
        (λ w. w.digest)
        (or_empty s.repository_audits)
        (λ r. r.baseline_audit_id)
        (λ r. r.baseline_audit_digest)
        (or_empty s.reproduction_reports)
  pub report_final :
      Refers
        (λ w. w.digest)
        (or_empty s.repository_audits)
        (λ r. r.final_audit_id)
        (λ r. r.final_audit_digest)
        (or_empty s.reproduction_reports)
  pub spec_audit :
      Refers
        (λ w. w.digest)
        (or_empty s.repository_audits)
        (λ x. x.repository_audit_id)
        (λ x. x.repository_audit_digest)
        (or_empty s.experiment_specs)
  pub result_spec :
      Refers
        (λ w. w.digest)
        (or_empty s.experiment_specs)
        (λ r. r.experiment_spec_id)
        (λ r. r.experiment_spec_digest)
        (or_empty s.results)
  pub result_run : Names s.runs (λ r. r.run_id) (or_empty s.results)
  pub manuscript_packet :
      Refers
        (λ w. w.digest)
        (or_empty s.writing_packets)
        (λ m. m.packet_id)
        (λ m. m.packet_digest)
        (or_empty s.manuscripts)

-- A new project has no references.
pub created_state-IsLinked :
    (b : ProjectBinding) (w : WorkspaceBinding) → IsLinked (created_state b w)
unfolding created_state
created_state-IsLinked b w = search (Refers-empty)
