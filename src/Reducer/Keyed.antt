-- ===== src/Reducer/Keyed.antt =====
-- Every map of the state files each record under its own id (reducer.ts).
use georesearch_dsh.Prelude.{
  String, ◌≡◌, refl, sym, subst, ◌∙◌, Option, none, some, List, [], ◌∷◌, arith, eq_iff,
  if◌then◌else◌, ok, Option-cases, inl, inr, ap, ◌⊎◌, includes,
}
use georesearch_dsh.Dict.{
  Dict, get, put, remove, or_empty, get-put, get-remove, map_option, map_values, get-map_values,
}
use georesearch_dsh.Contracts.State.{ProjectReducerState}
use georesearch_dsh.Contracts.Artifact.{ArtifactRecord}
use georesearch_dsh.Contracts.Evidence.{EvidenceRecord, ReviewStatus}
use georesearch_dsh.Contracts.Reproduction.{ReproductionReport}
use georesearch_dsh.Contracts.Experiment.{ResultRecord, ValidationStatus}
use georesearch_dsh.Contracts.Validation.{ValidationSubjectRef}
use georesearch_dsh.Contracts.Workspace.{ProjectBinding, WorkspaceBinding}
use georesearch_dsh.Contracts.Event.{
  ProjectEvent, ProjectEventData, project_created, deliverable_published, experiment_spec_committed,
  validation_completed, review_recorded, artifact_upload_rolled_back,
}
use georesearch_dsh.Reducer.{reduce_project_event, reduce, created_state}
use georesearch_dsh.Reducer.Apply.{apply_event, publish_checked, remove_found}
use georesearch_dsh.Reducer.Maps.{
  put_all, publish, supersede, stale_all, mark_all, is_result, is_evidence, is_reproduction_report,
  set_validation_status, set_evidence_review, set_report_review,
}
use georesearch_dsh.Reducer.Lookup.{get-stale_all, get-mark_all, make_stale, mark_named}
use georesearch_dsh.Reducer.Step.{reduce-apply}
use georesearch_dsh.Reducer.History.{Ensures}

pub record IsFiled {ℓ} {V : Type ℓ} (key : V → String) (m : Dict V) : Type ℓ where
  pub under : (k : String) (v : V) → get m k ≡ some v → key v ≡ k

module _ {ℓ} {V : Type ℓ} where
  IsFiled-empty : (key : V → String) → IsFiled key []
  unfolding get
  IsFiled-empty key = record { under = λ k v h. cc }

  IsFiled-put :
      (key : V → String) (m : Dict V) (i : String) (v : V)
      → key v ≡ i
      → IsFiled key m
      → IsFiled key (put m i v)
  IsFiled-put key m i v e f = record {
    under = λ k w h. ground (arith, get-put m i k v, eq_iff i k, f.under k w);
  }

  IsFiled-put_all :
      (key : V → String) (m : Dict V) (vs : List V) → IsFiled key m → IsFiled key (put_all key m vs)
  unfolding put_all
  IsFiled-put_all key m [] f = f
  IsFiled-put_all key m (v ∷ vs) f =
      IsFiled-put_all key (put m (key v) v) vs (IsFiled-put key m (key v) v refl f)

  IsFiled-remove :
      (key : V → String) (m : Dict V) (k : String) → IsFiled key m → IsFiled key (remove m k)
  IsFiled-remove key m i f = record {
    under = λ k w h. ground (arith, get-remove m i k, f.under k w);
  }

  -- A change of the records that keeps their ids.
  IsFiled-map :
      (key : V → String) (m n : Dict V) (change : String → V → V)
      → ((k : String) (v : V) → key (change k v) ≡ key v)
      → ((k : String) → get n k ≡ map_option (change k) (get m k))
      → IsFiled key m
      → IsFiled key n
  IsFiled-map key m n change same at f = record {
    under = λ k w h. found k w h (Option-cases (get m k));
  }
    where
      found :
          (k : String) (w : V)
          → get n k ≡ some w
          → (get m k ≡ none) ⊎ ((v : V) × (get m k ≡ some v))
          → key w ≡ k
      found k w h (inl e) = cc (at k, ap (map_option (change k)) e)
      found k w h (inr (v, e)) = cc (at k, ap (map_option (change k)) e, same k v, f.under k v e)

IsFiled-publish :
    (m : Dict ArtifactRecord) (a : ArtifactRecord)
    → IsFiled (λ r. r.artifact_id) m
    → IsFiled (λ r. r.artifact_id) (publish m a)
unfolding publish supersede
IsFiled-publish m a f = IsFiled-put _ (map_values (supersede a) m) a.artifact_id a refl (
    IsFiled-map (λ r. r.artifact_id) m _ (λ k. supersede a) (λ k v. ground arith)
      (get-map_values (supersede a) m) f)

IsFiled-stale_all :
    (m : Dict ArtifactRecord) (ids : List String)
    → IsFiled (λ r. r.artifact_id) m
    → IsFiled (λ r. r.artifact_id) (stale_all m ids)
IsFiled-stale_all m ids f =
    IsFiled-map (λ r. r.artifact_id) m _ (λ k v. if includes k ids then make_stale v else v)
      (λ k v. ground arith) (λ k. get-stale_all m ids k ∙ ground arith) f

IsFiled-results :
    (status : ValidationStatus) (m : Dict ResultRecord) (ss : List ValidationSubjectRef)
    → IsFiled (λ r. r.result_id) m
    → IsFiled
        (λ r. r.result_id)
        (mark_all (λ r. r.digest) (set_validation_status status) is_result m ss)
IsFiled-results status m ss =
    IsFiled-map (λ r. r.result_id) m _
      (mark_named (λ r. r.digest) (set_validation_status status) is_result ss) (λ k v. ground arith)
      (get-mark_all (λ r. r.digest) (set_validation_status status) (λ r. refl) (λ r. refl) is_result
        m ss)

IsFiled-evidence :
    (status : ReviewStatus) (m : Dict EvidenceRecord) (ss : List ValidationSubjectRef)
    → IsFiled (λ r. r.evidence_id) m
    → IsFiled
        (λ r. r.evidence_id)
        (mark_all (λ r. r.digest) (set_evidence_review status) is_evidence m ss)
IsFiled-evidence status m ss =
    IsFiled-map (λ r. r.evidence_id) m _
      (mark_named (λ r. r.digest) (set_evidence_review status) is_evidence ss) (λ k v. ground arith)
      (get-mark_all (λ r. r.digest) (set_evidence_review status) (λ r. refl) (λ r. refl) is_evidence
        m ss)

IsFiled-reports :
    (status : ReviewStatus) (m : Dict ReproductionReport) (ss : List ValidationSubjectRef)
    → IsFiled (λ r. r.report_id) m
    → IsFiled
        (λ r. r.report_id)
        (mark_all (λ r. r.digest) (set_report_review status) is_reproduction_report m ss)
IsFiled-reports status m ss =
    IsFiled-map (λ r. r.report_id) m _
      (mark_named (λ r. r.digest) (set_report_review status) is_reproduction_report ss)
      (λ k v. ground arith)
      (get-mark_all (λ r. r.digest) (set_report_review status) (λ r. refl) (λ r. refl)
        is_reproduction_report m ss)

pub record IsKeyed (s : ProjectReducerState) : Type 0 where
  pub workspace_bindings : IsFiled (λ r. r.workspace_id) s.workspace_bindings
  pub artifacts : IsFiled (λ r. r.artifact_id) s.artifacts
  pub runs : IsFiled (λ r. r.run_id) s.runs
  pub sources : IsFiled (λ r. r.source_id) (or_empty s.sources)
  pub evidence : IsFiled (λ r. r.evidence_id) (or_empty s.evidence)
  pub repository_audits : IsFiled (λ r. r.audit_id) (or_empty s.repository_audits)
  pub reproduction_plans : IsFiled (λ r. r.plan_id) (or_empty s.reproduction_plans)
  pub reproduction_test_specs :
      IsFiled (λ r. r.spec.test_spec_id) (or_empty s.reproduction_test_specs)
  pub reproduction_reports : IsFiled (λ r. r.report_id) (or_empty s.reproduction_reports)
  pub geodata_reports : IsFiled (λ r. r.report_id) (or_empty s.geodata_reports)
  pub dataset_manifests : IsFiled (λ r. r.dataset_id) (or_empty s.dataset_manifests)
  pub experiment_specs : IsFiled (λ r. r.spec_id) (or_empty s.experiment_specs)
  pub experiment_amendments : IsFiled (λ r. r.amendment_id) (or_empty s.experiment_amendments)
  pub results : IsFiled (λ r. r.result_id) (or_empty s.results)
  pub validation_plans : IsFiled (λ r. r.plan_id) (or_empty s.validation_plans)
  pub validation_reports : IsFiled (λ r. r.report_id) (or_empty s.validation_reports)
  pub review_records : IsFiled (λ r. r.review_id) (or_empty s.review_records)
  pub claims : IsFiled (λ r. r.claim_id) (or_empty s.claims)
  pub writing_packets : IsFiled (λ r. r.packet_id) (or_empty s.writing_packets)
  pub manuscripts : IsFiled (λ r. r.manuscript_id) (or_empty s.manuscripts)
  pub manuscript_audits : IsFiled (λ r. r.audit_id) (or_empty s.manuscript_audits)

ruleset filing = (
  refl, IsFiled-empty, IsFiled-put, IsFiled-put_all, IsFiled-remove, IsFiled-publish,
  IsFiled-stale_all,
)

apply-IsKeyed :
    (s : ProjectReducerState) (time : String) (e : ProjectEventData)
    → IsKeyed s
    → Ensures IsKeyed (apply_event s time e)
unfolding apply_event
apply-IsKeyed s time (deliverable_published a) h = deliverable a.source_relative_path
  where
    deliverable : (o : Option String) → Ensures IsKeyed (publish_checked s a o)
    deliverable none = tt
    deliverable (some p) = search filing
apply-IsKeyed s time (experiment_spec_committed rs ms x none) h = search filing
apply-IsKeyed s time (experiment_spec_committed rs ms x (some a)) h = search filing
apply-IsKeyed s time (validation_completed p r) h = search (filing, IsFiled-results)
apply-IsKeyed s time (review_recorded r) h = search (filing, IsFiled-evidence, IsFiled-reports)
apply-IsKeyed s time (artifact_upload_rolled_back k a d w) h = removed (get s.artifacts k)
  where
    removed : (o : Option ArtifactRecord) → IsKeyed (remove_found s k o)
    removed none = h
    removed (some r) = search filing
apply-IsKeyed s time _ h = search filing

IsKeyed-created : (b : ProjectBinding) (w : WorkspaceBinding) → IsKeyed (created_state b w)
unfolding created_state put
IsKeyed-created b w = search (filing, IsFiled-put (λ r. r.workspace_id) [] w.workspace_id w refl)

abbrev pub IsKeyedOption : Option ProjectReducerState → Type 0
IsKeyedOption none = Unit
IsKeyedOption (some s) = IsKeyed s

reduce_none-IsKeyed : (time : String) (e : ProjectEventData) → Ensures IsKeyed (reduce none time e)
unfolding reduce
reduce_none-IsKeyed time (project_created b w) = IsKeyed-created b w
reduce_none-IsKeyed time _ = tt

-- An event keeps it that every record of the state stands under its own id in its map, and a
-- created project has this property.
pub reduce-IsKeyed :
    (current : Option ProjectReducerState) (t : ProjectReducerState) (e : ProjectEvent)
    → IsKeyedOption current
    → reduce_project_event current e ≡ ok t
    → IsKeyed t
unfolding reduce_project_event
reduce-IsKeyed none t e h p = subst (Ensures IsKeyed) p (reduce_none-IsKeyed e.time e.content)
reduce-IsKeyed (some s) t e h p =
    subst (Ensures IsKeyed) (sym (reduce-apply s e) ∙ p) (apply-IsKeyed s e.time e.content h)
