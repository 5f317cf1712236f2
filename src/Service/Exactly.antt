-- ===== src/Service/Exactly.antt =====
-- What a report of an exact reproduction rests on.
use georesearch_dsh.Prelude.{
  String, ◌≡◌, refl, true, false, Option, none, some, List, [], ◌∷◌, arith, eq_iff, any, includes,
  includes_head, includes_tail, is_empty, ok, ◌>>=◌, >>=-ok_parts, Bool-cases, inl, inr,
}
use georesearch_dsh.Dict.{get, or_empty}
use georesearch_dsh.Contracts.Run.{RunRecord, RunState}
use georesearch_dsh.Contracts.Reproduction.{
  RepositoryAudit, ReproductionPlan, ReproductionReport, ReproductionStatus, ReproductionScope,
}
use georesearch_dsh.Contracts.State.{ProjectReducerState, ProjectStateFile}
use georesearch_dsh.Contracts.Event.{ProjectEvent}
use georesearch_dsh.Store.Disk.{Disk, Encoding}
use georesearch_dsh.Store.Synced.{IsSynced}
use georesearch_dsh.Service.Host.{Host}
use georesearch_dsh.Service.Outcomes.{outcome_violation, allowed_success, is_succeeded}
use georesearch_dsh.Service.Reports.{reported_runs, admit_run, test_specs_of}
use georesearch_dsh.Service.Reporting.{IsReportable, report_parts}
use georesearch_dsh.Service.Commit.{Proposal, Envelope, guard, commit_proposal}
use georesearch_dsh.Service.Committing.{decided_ok}

-- One of the runs is on file and has succeeded on the source tree of an audit.
pub record HasSuccess (s : ProjectReducerState) (final : RepositoryAudit) (run_ids : List String)
    : Type 0 where
  pub run_id : String
  pub run : RunRecord
  pub reported : includes run_id run_ids ≡ true
  pub found : get s.runs run_id ≡ some run
  pub succeeded : run.state ≡ RunState.succeeded
  pub on_tree : run.source_tree_digest ≡ final.source_tree_digest

module _ (project_id : String) (plan : ReproductionPlan) (final : RepositoryAudit)
    (s : ProjectReducerState) where
  admitted :
      (o : Option RunRecord) (run : RunRecord)
      → admit_run project_id plan final (test_specs_of s) o ≡ ok run
      → (o ≡ some run) × (run.source_tree_digest ≡ final.source_tree_digest)
  admitted none run h = cc
  admitted (some r) run h =
      (ground (arith, h), ground (arith, h, eq_iff r.source_tree_digest final.source_tree_digest))

  is_succeeded-eq : (t : RunState) → is_succeeded t ≡ true → t ≡ RunState.succeeded
  is_succeeded-eq t h = ground (arith, h)

  some_success :
      (ks : List String) (runs : List RunRecord)
      → reported_runs project_id plan final s ks ≡ ok runs
      → any (λ run. is_succeeded run.state) runs ≡ true
      → HasSuccess s final ks
  unfolding reported_runs any
  some_success [] runs h success = ground (arith, h, success)
  some_success (k ∷ ks) runs h success =
      let (run, first, rest) =
        >>=-ok_parts (admit_run project_id plan final (test_specs_of s) (get s.runs k))
          (λ r. reported_runs project_id plan final s ks >>= λ rs. ok (r ∷ rs)) h in
      let (rs, second, both) =
        >>=-ok_parts (reported_runs project_id plan final s ks) (λ rs. ok (run ∷ rs)) rest in
      let (found, on_tree) = admitted (get s.runs k) run first in
      elim (Bool-cases (is_succeeded run.state)) [
        | inl e ↦ record {
          run_id = k;
          run = run;
          reported = includes_head k k ks refl;
          found = found;
          succeeded = is_succeeded-eq run.state e;
          on_tree = on_tree;
        }
        | inr e ↦
            let more = some_success ks rs second (ground (arith, both, success, e)) in
            record {
              run_id = more.run_id;
              run = more.run;
              reported = includes_tail more.run_id k ks more.reported;
              found = more.found;
              succeeded = more.succeeded;
              on_tree = more.on_tree;
            }
      ]

-- What an exact reproduction promises.
pub record IsExact (s : ProjectReducerState) (report : ReproductionReport) : Type 0 where
  pub plan : ReproductionPlan
  pub baseline : RepositoryAudit
  pub final : RepositoryAudit
  pub plan_found : get (or_empty s.reproduction_plans) report.plan_id ≡ some plan
  pub baseline_found : get (or_empty s.repository_audits) report.baseline_audit_id ≡ some baseline
  pub final_found : get (or_empty s.repository_audits) report.final_audit_id ≡ some final
  pub scope : plan.scope ≡ ReproductionScope.exact
  pub planned_tree : baseline.source_tree_digest ≡ plan.source_tree_digest
  pub same_tree : baseline.source_tree_digest ≡ final.source_tree_digest
  pub clean : final.repository.dirty ≡ false
  pub unmodified : report.necessary_modifications ≡ []
  pub success : HasSuccess s final report.run_ids

is_empty-eq {ℓ} : {A : Type ℓ} (xs : List A) → is_empty xs ≡ true → xs ≡ []
is_empty-eq [] h = refl
is_empty-eq (x ∷ xs) h = cc

IsExact-parts :
    (project_id : String) (report : ReproductionReport) (s : ProjectReducerState)
    → report.status ≡ ReproductionStatus.exactly_reproduced
    → IsReportable project_id report s
    → IsExact s report
unfolding outcome_violation allowed_success
IsExact-parts project_id report s exact parts = record {
  plan = plan;
  baseline = baseline;
  final = final;
  plan_found = parts.plan_found;
  baseline_found = parts.baseline_found;
  final_found = parts.final_found;
  scope = ground (arith, exact, allowed);
  planned_tree =
      ground (arith, current, eq_iff baseline.source_tree_digest plan.source_tree_digest);
  same_tree =
      ground (arith, exact, allowed, eq_iff baseline.source_tree_digest final.source_tree_digest);
  clean = ground (arith, exact, allowed);
  unmodified = is_empty-eq report.necessary_modifications (ground (arith, exact, allowed));
  success =
      some_success project_id plan final s report.run_ids runs runs_found
        (ground (arith, exact, allowed));
}
  where
    open parts use {plan, baseline, final, runs, allowed, current, runs_found}

module _ (h : Host) (p : Encoding) (project_id : String) (disk : Disk) (events : List ProjectEvent)
    (latest : ProjectEvent) (state : ProjectReducerState)
    (synced : IsSynced p project_id disk events latest state) where
  -- If a report of an exact reproduction is committed, on a project whose snapshot agrees with its
  -- log, its plan and its two audits are on file, the plan's scope is exact, the source tree is the
  -- planned one before and after, the checkout is clean, there are no modifications, and one of the reported
  -- runs is on file and has succeeded on that tree.
  pub IsExact-report-IsExact :
      (e : Envelope) (report : ReproductionReport) (time : String) (f : ProjectStateFile)
      → report.status ≡ ReproductionStatus.exactly_reproduced
      → (commit_proposal h p project_id e (Proposal.report report) time disk).0 ≡ ok f
      → IsExact state report
  unfolding guard
  IsExact-report-IsExact e report time f exact done =
      let (d, decided) =
        decided_ok h p project_id disk events latest state synced e (Proposal.report report) time f
          done in
      IsExact-parts project_id report state exact (report_parts project_id report state d decided).0
