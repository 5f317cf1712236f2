-- ===== src/Reducer/Preserved.antt =====
-- What an event may change of the records that are in the state (reducer.ts).
use georesearch_dsh.Prelude.{
  String, ◌≡◌, ◌⊎◌, refl, sym, subst, ◌∙◌, Bool, true, false, Option, none, some, List, [], ◌∷◌,
  ◌++◌, arith, ◌==◌, eq_iff, eq_refl, if◌then◌else◌, inl, inr, ok, includes, includes_head,
  includes_tail, map, Bool-cases,
}
use georesearch_dsh.Dict.{Dict, get, put, or_empty, get-put, map_option}
use georesearch_dsh.Contracts.State.{ProjectReducerState}
use georesearch_dsh.Contracts.Artifact.{ArtifactRecord, ArtifactValidity}
use georesearch_dsh.Contracts.Experiment.{
  ExperimentAmendment, ExperimentSpec, ResultRecord, ValidationStatus,
}
use georesearch_dsh.Contracts.Dataset.{GeodataInspectionReport, DatasetManifest}
use georesearch_dsh.Contracts.Evidence.{EvidenceRecord, ReviewStatus}
use georesearch_dsh.Contracts.Reproduction.{ReproductionReport}
use georesearch_dsh.Contracts.Validation.{ValidationSubjectRef, ValidationSubjectKind}
use georesearch_dsh.Contracts.Event.{
  ProjectEvent, ProjectEventData, project_created, research_brief_committed, artifacts_staled,
  project_blockers_updated, unsupported, workspace_attached, workspace_rebound, artifact_committed,
  deliverable_published, artifact_upload_rolled_back, run_recorded, run_updated, source_recorded,
  evidence_recorded, repository_audit_recorded, reproduction_plan_recorded,
  reproduction_test_spec_recorded, reproduction_report_recorded, experiment_spec_committed,
  result_records_committed, validation_completed, review_recorded, claim_recorded,
  writing_packet_recorded, manuscript_audited,
}
use georesearch_dsh.Reducer.{reduce_project_event}
use georesearch_dsh.Reducer.Apply.{apply_event, publish_checked, amended}
use georesearch_dsh.Reducer.Maps.{
  put_all, publish, supersede, stale_all, mark_all, is_result, is_evidence, is_reproduction_report,
  set_validation_status, set_evidence_review, set_report_review,
}
use georesearch_dsh.Reducer.Step.{reduce-apply}
use georesearch_dsh.Reducer.Lookup.{
  get-publish, get-stale_all, make_stale, get-put_all, latest, get-mark_all, mark_named, is_named,
}
use georesearch_dsh.Reducer.History.{Ensures, rolls_back}

abbrev amendment_ids : Option ExperimentAmendment → List String
amendment_ids none = []
amendment_ids (some a) = a.amendment_id ∷ []

-- The ids of the records that an event brings.
unfoldable pub brought : ProjectEventData → List String
brought (workspace_attached w) = w.workspace_id ∷ []
brought (workspace_rebound w) = w.workspace_id ∷ []
brought (artifact_committed a) = a.artifact_id ∷ []
brought (deliverable_published a) = a.artifact_id ∷ []
brought (run_recorded run) = run.run_id ∷ []
brought (run_updated run) = run.run_id ∷ []
brought (source_recorded r) = r.source_id ∷ []
brought (evidence_recorded r) = r.evidence_id ∷ []
brought (repository_audit_recorded r) = r.audit_id ∷ []
brought (reproduction_plan_recorded r) = r.plan_id ∷ []
brought (reproduction_test_spec_recorded r) = r.spec.test_spec_id ∷ []
brought (reproduction_report_recorded r) = r.report_id ∷ []
brought (experiment_spec_committed rs ms x a) =
    x.spec_id ∷ (amendment_ids a ++ (map (λ r. r.report_id) rs ++ map (λ m. m.dataset_id) ms))
brought (result_records_committed run rs) = run.run_id ∷ map (λ r. r.result_id) rs
brought (validation_completed plan report) = plan.plan_id ∷ report.report_id ∷ []
brought (review_recorded r) = r.review_id ∷ []
brought (claim_recorded r) = r.claim_id ∷ []
brought (writing_packet_recorded r) = r.packet_id ∷ []
brought (manuscript_audited m audit) = m.manuscript_id ∷ audit.audit_id ∷ []
brought _ = []

-- The record that stands for another one: either the event brings a record of this id, or they are the
-- same but for what `body` leaves out.
abbrev pub Stands : {V : Type 0} → List String → (V → V) → String → V → Option V → Type 0
Stands {V} ids body k v o = (w : V) × (o ≡ some w) × ((includes k ids ≡ true) ⊎ (body w ≡ body v))

-- Every record of `m` has a record of `n` that stands for it.
pub record Preserves {V : Type 0} (ids : List String) (body : V → V) (m n : Dict V) : Type 0 where
  pub stands : (k : String) (v : V) → get m k ≡ some v → Stands ids body k v (get n k)

module _ {V : Type 0} (body : V → V) where
  Preserves-refl : (ids : List String) (m : Dict V) → Preserves ids body m m
  Preserves-refl ids m = record { stands = λ k v h. (v, h, inr refl) }

  put_within :
      (ids : List String) (m : Dict V) (i : String) (x : V)
      → includes i ids ≡ true
      → Preserves ids body m (put m i x)
  put_within ids m i x within = record {
    stands = λ k v h. elim (Bool-cases (i == k)) [
      | inl e ↦ (
        x,
        get-put m i k x ∙ rw e refl,
        inl (subst (λ y. includes y ids ≡ true) ((eq_iff i k).0 e) within),
      )
      | inr e ↦ (v, get-put m i k x ∙ rw e h, inr refl)
    ];
  }

  Preserves-put :
      (is : List String) (m : Dict V) (i : String) (x : V) → Preserves (i ∷ is) body m (put m i x)
  unfolding includes
  Preserves-put is m i x = put_within (i ∷ is) m i x (ground (arith, eq_refl i))

  Preserves-put_next :
      (j : String) (is : List String) (m : Dict V) (i : String) (x : V)
      → Preserves (j ∷ i ∷ is) body m (put m i x)
  unfolding includes
  Preserves-put_next j is m i x = put_within (j ∷ i ∷ is) m i x (ground (arith, eq_refl i))

  Stands-latest :
      (ids : List String) (key : V → String) (k : String) (v : V) (xs : List V) (o : Option V)
      → ((j : String) → includes j (map key xs) ≡ true → includes j ids ≡ true)
      → Stands ids body k v o
      → Stands ids body k v (latest key k xs o)
  unfolding includes
  Stands-latest ids key k v [] o within s = s
  Stands-latest ids key k v (x ∷ xs) o within s =
      Stands-latest ids key k v xs (if key x == k then some x else o)
        (λ j i. within j (ground (arith, i))) (first (key x == k) refl)
    where
      first : (b : Bool) → (key x == k) ≡ b → Stands ids body k v (if b then some x else o)
      first true e = (
        x,
        refl,
        inl (
            subst (λ y. includes y ids ≡ true) ((eq_iff (key x) k).0 e)
              (within (key x) (ground (arith, eq_refl (key x))))),
      )
      first false e = s

  Preserves-put_all :
      (ids : List String) (key : V → String) (m : Dict V) (xs : List V)
      → ((j : String) → includes j (map key xs) ≡ true → includes j ids ≡ true)
      → Preserves ids body m (put_all key m xs)
  Preserves-put_all ids key m xs within = record {
    stands = λ k v h.
        subst (Stands ids body k v) (sym (get-put_all key m xs k))
          (Stands-latest ids key k v xs (get m k) within (v, h, inr refl));
  }

  -- A map whose records are changed one by one, and only in what `body` leaves out.
  Preserves-mapped :
      (ids : List String) (m n : Dict V) (f : String → V → V)
      → ((k : String) → get n k ≡ map_option (f k) (get m k))
      → ((k : String) (v : V) → body (f k v) ≡ body v)
      → Preserves ids body m n
  Preserves-mapped ids m n f at same = record {
    stands = λ k v h. (f k v, at k ∙ rw h, inr (same k v));
  }

abbrev pub artifact_body : ArtifactRecord → ArtifactRecord
artifact_body a = record a { validity = ArtifactValidity.current }

abbrev pub result_body : ResultRecord → ResultRecord
result_body r = record r { validation_status = ValidationStatus.pending }

abbrev pub evidence_body : EvidenceRecord → EvidenceRecord
evidence_body r = record r { review_status = ReviewStatus.accepted }

abbrev pub report_body : ReproductionReport → ReproductionReport
report_body r = record r { review_status = ReviewStatus.accepted }

supersede_body : (a c : ArtifactRecord) → artifact_body (supersede a c) ≡ artifact_body c
unfolding supersede
supersede_body a c = ground arith

Preserves-publish :
    (is : List String) (m : Dict ArtifactRecord) (a : ArtifactRecord)
    → Preserves (a.artifact_id ∷ is) artifact_body m (publish m a)
unfolding includes
Preserves-publish is m a = record {
  stands = λ k v h. elim (Bool-cases (a.artifact_id == k)) [
    | inl e ↦ (
      a,
      get-publish m a k ∙ rw e refl,
      inl (
          subst (λ y. includes y (a.artifact_id ∷ is) ≡ true) ((eq_iff a.artifact_id k).0 e)
            (ground (arith, eq_refl a.artifact_id))),
    )
    | inr e ↦ (supersede a v, get-publish m a k ∙ rw (e, h), inr (supersede_body a v))
  ];
}

Preserves-stale_all :
    (ids : List String) (m : Dict ArtifactRecord) (staled : List String)
    → Preserves ids artifact_body m (stale_all m staled)
Preserves-stale_all ids m staled =
    Preserves-mapped artifact_body ids m (stale_all m staled)
      (λ k a. if includes k staled then make_stale a else a)
      (λ k. get-stale_all m staled k ∙ chosen (includes k staled) (get m k))
      (λ k a. same (includes k staled) a)
  where
    chosen :
        (b : Bool) (o : Option ArtifactRecord)
        → (if b then map_option make_stale o else o)
          ≡ map_option (λ a. if b then make_stale a else a) o
    chosen b o = ground arith

    same :
        (b : Bool) (a : ArtifactRecord)
        → artifact_body (if b then make_stale a else a) ≡ artifact_body a
    same b a = ground arith

Preserves-mark_all :
    {V : Type 0} (ids : List String) (body : V → V) (digest : V → String) (mark : V → V)
    (keeps : (v : V) → digest (mark v) ≡ digest v) (twice : (v : V) → mark (mark v) ≡ mark v)
    (same : (v : V) → body (mark v) ≡ body v) (wanted : ValidationSubjectKind → Bool) (m : Dict V)
    (ss : List ValidationSubjectRef)
    → Preserves ids body m (mark_all digest mark wanted m ss)
Preserves-mark_all {V} ids body digest mark keeps twice same wanted m ss =
    Preserves-mapped body ids m (mark_all digest mark wanted m ss)
      (mark_named digest mark wanted ss) (get-mark_all digest mark keeps twice wanted m ss)
      (λ k v. marked (is_named wanted ss k (digest v)) v)
  where
    marked : (b : Bool) (v : V) → body (if b then mark v else v) ≡ body v
    marked true v = same v
    marked false v = refl

Preserves-results :
    (ids : List String) (status : ValidationStatus) (m : Dict ResultRecord)
    (ss : List ValidationSubjectRef)
    → Preserves ids result_body m
        (mark_all (λ r. r.digest) (set_validation_status status) is_result m ss)
Preserves-results ids status =
    Preserves-mark_all ids result_body _ _ (λ r. refl) (λ r. refl) (λ r. refl) _

Preserves-evidence :
    (ids : List String) (status : ReviewStatus) (m : Dict EvidenceRecord)
    (ss : List ValidationSubjectRef)
    → Preserves ids evidence_body m
        (mark_all (λ r. r.digest) (set_evidence_review status) is_evidence m ss)
Preserves-evidence ids status =
    Preserves-mark_all ids evidence_body _ _ (λ r. refl) (λ r. refl) (λ r. refl) _

Preserves-reports :
    (ids : List String) (status : ReviewStatus) (m : Dict ReproductionReport)
    (ss : List ValidationSubjectRef)
    → Preserves ids report_body m
        (mark_all (λ r. r.digest) (set_report_review status) is_reproduction_report m ss)
Preserves-reports ids status =
    Preserves-mark_all ids report_body _ _ (λ r. refl) (λ r. refl) (λ r. refl) _

-- Every record of the one state has one that stands for it in the other.
pub record IsPreserved (ids : List String) (s t : ProjectReducerState) : Type 0 where
  pub workspace_bindings : Preserves ids (λ x. x) s.workspace_bindings t.workspace_bindings
  pub artifacts : Preserves ids artifact_body s.artifacts t.artifacts
  pub runs : Preserves ids (λ x. x) s.runs t.runs
  pub sources : Preserves ids (λ x. x) (or_empty s.sources) (or_empty t.sources)
  pub evidence : Preserves ids evidence_body (or_empty s.evidence) (or_empty t.evidence)
  pub repository_audits :
      Preserves ids (λ x. x) (or_empty s.repository_audits) (or_empty t.repository_audits)
  pub reproduction_plans :
      Preserves ids (λ x. x) (or_empty s.reproduction_plans) (or_empty t.reproduction_plans)
  pub reproduction_test_specs :
      Preserves ids
        (λ x. x)
        (or_empty s.reproduction_test_specs)
        (or_empty t.reproduction_test_specs)
  pub reproduction_reports :
      Preserves ids report_body (or_empty s.reproduction_reports) (or_empty t.reproduction_reports)
  pub geodata_reports :
      Preserves ids (λ x. x) (or_empty s.geodata_reports) (or_empty t.geodata_reports)
  pub dataset_manifests :
      Preserves ids (λ x. x) (or_empty s.dataset_manifests) (or_empty t.dataset_manifests)
  pub experiment_specs :
      Preserves ids (λ x. x) (or_empty s.experiment_specs) (or_empty t.experiment_specs)
  pub experiment_amendments :
      Preserves ids (λ x. x) (or_empty s.experiment_amendments) (or_empty t.experiment_amendments)
  pub results : Preserves ids result_body (or_empty s.results) (or_empty t.results)
  pub validation_plans :
      Preserves ids (λ x. x) (or_empty s.validation_plans) (or_empty t.validation_plans)
  pub validation_reports :
      Preserves ids (λ x. x) (or_empty s.validation_reports) (or_empty t.validation_reports)
  pub review_records :
      Preserves ids (λ x. x) (or_empty s.review_records) (or_empty t.review_records)
  pub claims : Preserves ids (λ x. x) (or_empty s.claims) (or_empty t.claims)
  pub writing_packets :
      Preserves ids (λ x. x) (or_empty s.writing_packets) (or_empty t.writing_packets)
  pub manuscripts : Preserves ids (λ x. x) (or_empty s.manuscripts) (or_empty t.manuscripts)
  pub manuscript_audits :
      Preserves ids (λ x. x) (or_empty s.manuscript_audits) (or_empty t.manuscript_audits)

includes-left :
    (k : String) (xs ys : List String) → includes k xs ≡ true → includes k (xs ++ ys) ≡ true
unfolding includes
includes-left k [] ys h = cc
includes-left k (x ∷ xs) ys h = ground (arith, h, includes-left k xs ys)

includes-right :
    (k : String) (xs ys : List String) → includes k ys ≡ true → includes k (xs ++ ys) ≡ true
unfolding includes
includes-right k [] ys h = h
includes-right k (x ∷ xs) ys h = ground (arith, includes-right k xs ys h)

ruleset preserving = (
  Preserves-refl, Preserves-put, Preserves-put_next, Preserves-publish, Preserves-stale_all,
  Preserves-results, Preserves-evidence, Preserves-reports,
)

Preserves-amended :
    (ids : List String) (m : Option (Dict ExperimentAmendment)) (a : Option ExperimentAmendment)
    → ((j : String) → includes j (amendment_ids a) ≡ true → includes j ids ≡ true)
    → Preserves ids (λ x. x) (or_empty m) (or_empty (amended m a))
Preserves-amended ids m none within = Preserves-refl (λ x. x) ids (or_empty m)
Preserves-amended ids m (some a) within =
    put_within (λ x. x) ids (or_empty m) a.amendment_id a
      (within a.amendment_id (includes_head a.amendment_id a.amendment_id [] refl))

-- The state with a spec and what comes along.
abbrev with_spec :
    ProjectReducerState
    → ExperimentSpec
    → Option ExperimentAmendment
    → List GeodataInspectionReport
    → List DatasetManifest
    → ProjectReducerState
with_spec s x a rs ms = record s {
  geodata_reports = some (put_all (λ r. r.report_id) (or_empty s.geodata_reports) rs);
  dataset_manifests = some (put_all (λ m. m.dataset_id) (or_empty s.dataset_manifests) ms);
  experiment_specs = some (put (or_empty s.experiment_specs) x.spec_id x);
  experiment_amendments = amended s.experiment_amendments a;
}

spec-IsPreserved :
    (s : ProjectReducerState) (x : ExperimentSpec) (a : Option ExperimentAmendment)
    (rs : List GeodataInspectionReport) (ms : List DatasetManifest) (ids : List String)
    → includes x.spec_id ids ≡ true
    → ((j : String) → includes j (amendment_ids a) ≡ true → includes j ids ≡ true)
    → ((j : String) → includes j (map (λ r. r.report_id) rs) ≡ true → includes j ids ≡ true)
    → ((j : String) → includes j (map (λ m. m.dataset_id) ms) ≡ true → includes j ids ≡ true)
    → IsPreserved ids s (with_spec s x a rs ms)
spec-IsPreserved s x a rs ms ids spec amendment reports manifests =
    let specs = put_within (λ x. x) ids (or_empty s.experiment_specs) x.spec_id x spec in
    let amendments = Preserves-amended ids s.experiment_amendments a amendment in
    let r =
      Preserves-put_all (λ x. x) ids (λ r. r.report_id) (or_empty s.geodata_reports) rs reports in
    let m =
      Preserves-put_all (λ x. x) ids (λ m. m.dataset_id) (or_empty s.dataset_manifests) ms
        manifests in
    search (Preserves-refl)

refuted : {P : Type 0} → true ≡ false → P
refuted h = cc

apply-IsPreserved :
    (s : ProjectReducerState) (time : String) (e : ProjectEventData)
    → rolls_back e ≡ false
    → Ensures (IsPreserved (brought e) s) (apply_event s time e)
unfolding apply_event brought
apply-IsPreserved s time (deliverable_published a) h = deliverable a.source_relative_path
  where
    deliverable :
        (o : Option String) → Ensures (IsPreserved (a.artifact_id ∷ []) s) (publish_checked s a o)
    deliverable none = tt
    deliverable (some p) = search preserving
apply-IsPreserved s time (experiment_spec_committed rs ms x a) h =
    let reports : List String = map (λ r. r.report_id) rs in
    let manifests : List String = map (λ m. m.dataset_id) ms in
    spec-IsPreserved s x a rs ms (brought (experiment_spec_committed rs ms x a))
      (includes_head x.spec_id x.spec_id _ refl)
      (λ j i. includes_tail j x.spec_id _ (includes-left j (amendment_ids a) _ i))
      (λ j i.
        includes_tail j x.spec_id _
          (includes-right j (amendment_ids a) _ (includes-left j reports manifests i)))
      (λ j i.
        includes_tail j x.spec_id _
          (includes-right j (amendment_ids a) _ (includes-right j reports manifests i)))
apply-IsPreserved s time (result_records_committed run rs) h =
    let results =
      Preserves-put_all result_body (run.run_id ∷ map (λ r. r.result_id) rs) (λ r. r.result_id)
        (or_empty s.results) rs (λ j i. includes_tail j run.run_id _ i) in
    search preserving
apply-IsPreserved s time (artifact_upload_rolled_back k a d w) h = refuted h
apply-IsPreserved s time (project_created b w) h = tt
apply-IsPreserved s time (workspace_attached w) h = search preserving
apply-IsPreserved s time (workspace_rebound w) h = search preserving
apply-IsPreserved s time (research_brief_committed b) h = search preserving
apply-IsPreserved s time (artifact_committed a) h = search preserving
apply-IsPreserved s time (artifacts_staled is xs) h = search preserving
apply-IsPreserved s time (run_recorded run) h = search preserving
apply-IsPreserved s time (run_updated run) h = search preserving
apply-IsPreserved s time (source_recorded r) h = search preserving
apply-IsPreserved s time (evidence_recorded r) h = search preserving
apply-IsPreserved s time (repository_audit_recorded r) h = search preserving
apply-IsPreserved s time (reproduction_plan_recorded r) h = search preserving
apply-IsPreserved s time (reproduction_test_spec_recorded r) h = search preserving
apply-IsPreserved s time (reproduction_report_recorded r) h = search preserving
apply-IsPreserved s time (validation_completed q r) h = search preserving
apply-IsPreserved s time (review_recorded r) h = search preserving
apply-IsPreserved s time (claim_recorded r) h = search preserving
apply-IsPreserved s time (writing_packet_recorded r) h = search preserving
apply-IsPreserved s time (manuscript_audited m u) h = search preserving
apply-IsPreserved s time (project_blockers_updated bs) h = search preserving
apply-IsPreserved s time (unsupported t j) h = tt

-- After an event other than the rollback of an upload, every record that was in the state is there
-- under its key: unless the event brings a record of this id, it is the same record, but for the
-- validity of an artifact, the validation status of a result and the review status of evidence and
-- of a reproduction report.
pub reduce-IsPreserved :
    (s t : ProjectReducerState) (e : ProjectEvent)
    → rolls_back e.content ≡ false
    → reduce_project_event (some s) e ≡ ok t
    → IsPreserved (brought e.content) s t
reduce-IsPreserved s t e h p =
    subst (Ensures (IsPreserved (brought e.content) s)) (sym (reduce-apply s e) ∙ p)
      (apply-IsPreserved s e.time e.content h)
