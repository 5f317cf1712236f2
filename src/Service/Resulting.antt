-- ===== src/Service/Resulting.antt =====
-- What `commitResultRecords` lets through.
use georesearch_dsh.Prelude.{
  String, ◌≡◌, refl, true, Option, none, some, arith, All, ok, ◌>>=◌, if◌then◌else◌,
}
use georesearch_dsh.Dict.{get}
use georesearch_dsh.Contracts.Run.{RunRecord}
use georesearch_dsh.Contracts.State.{ProjectReducerState}
use georesearch_dsh.Service.Host.{Host}
use georesearch_dsh.Service.Guards.{Decision, check_each, assert_current_artifact}
use georesearch_dsh.Service.Results.{
  ResultBundle, results_guard, results_on, stored_run_fits, check_outputs, check_result, is_on_file,
}
use georesearch_dsh.Service.Frozen.{check_each-All}

-- The run on record, and that it and the results allow the commit.
pub record IsResultable (h : Host) (project_id : String) (b : ResultBundle)
    (s : ProjectReducerState) (d : Decision) : Type 0 where
  pub stored : RunRecord
  pub found : get s.runs b.run.run_id ≡ some stored
  pub fits : stored_run_fits h project_id b.run stored ≡ true
  pub outputs : check_outputs h b ≡ ok tt
  pub checked : All (λ r. check_result h project_id s b.run r ≡ ok tt) b.results

pub results_parts :
    (h : Host) (project_id : String) (b : ResultBundle) (s : ProjectReducerState) (d : Decision)
    → results_guard h project_id b s ≡ ok d
    → IsResultable h project_id b s d
unfolding results_guard
results_parts h project_id b s d k = go (get s.runs b.run.run_id) refl k
  where
    checks :
        (stored : RunRecord)
        → get s.runs b.run.run_id ≡ some stored
        → stored_run_fits h project_id b.run stored ≡ true
        → (check_outputs h b >>= λ u.
            check_each (assert_current_artifact s) b.run.output_artifact_refs >>= λ v.
            check_each (check_result h project_id s b.run) b.results >>= λ w.
            ok (if is_on_file h s b stored then Decision.keep else Decision.write))
          ≡ ok d
        → IsResultable h project_id b s d
    checks stored f fits r = record {
      stored = stored;
      found = f;
      fits = fits;
      outputs = ground (arith, r);
      checked = check_each-All _ b.results (ground (arith, r));
    }

    go :
        (o : Option RunRecord)
        → get s.runs b.run.run_id ≡ o
        → results_on h project_id b s o ≡ ok d
        → IsResultable h project_id b s d
    go none f r = cc
    go (some stored) f r = checks stored f (ground (arith, r)) (ground (arith, r))
