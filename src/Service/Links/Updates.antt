-- ===== src/Service/Links/Updates.antt =====
-- References from the records of one map to those of another, and what updates of the maps do to
-- them.
use georesearch_dsh.Prelude.{
  String, ◌≡◌, ◌⊎◌, refl, sym, ap, subst, ◌∙◌, Bool, true, false, none, some, List, [], ◌∷◌, ◌==◌,
  eq_iff, if◌then◌else◌, All, Option-cases, Bool-cases, inl, inr,
}
use georesearch_dsh.Dict.{Dict, get, put, get-put, map_option}
use georesearch_dsh.Contracts.Validation.{ValidationSubjectRef, ValidationSubjectKind}
use georesearch_dsh.Contracts.Experiment.{ResultRecord, ValidationStatus}
use georesearch_dsh.Contracts.Evidence.{EvidenceRecord, ReviewStatus}
use georesearch_dsh.Contracts.Reproduction.{ReproductionReport}
use georesearch_dsh.Reducer.Maps.{
  put_all, mark_all, is_result, is_evidence, is_reproduction_report, set_validation_status,
  set_evidence_review, set_report_review,
}
use georesearch_dsh.Reducer.Lookup.{get-mark_all, mark_named, is_named}
use georesearch_dsh.Reducer.History.{Grows, is_some}
use georesearch_dsh.Service.Guards.{holds}
use georesearch_dsh.Service.Frozen.{IsFrozen}

-- There is a record under `k`, and it has the digest `d`.
abbrev pub At : {W : Type 0} → (W → String) → Dict W → String → String → Type 0
At {W} digest m k d = (w : W) × (get m k ≡ some w) × (digest w ≡ d)

-- Every record of `m` gives, by `k` and `d`, the id and the digest of a record of `targets`.
pub record Refers {V W : Type 0} (digest : W → String) (targets : Dict W) (k d : V → String)
    (m : Dict V) : Type 0 where
  pub refers : (j : String) (v : V) → get m j ≡ some v → At digest targets (k v) (d v)

-- The same where no digest is given.
abbrev pub Names : {V W : Type 0} → Dict W → (V → String) → Dict V → Type 0
Names targets k m = Refers (λ w. "") targets k (λ v. "") m

pub found-At :
    {W : Type 0} (digest : W → String) (m : Dict W) (k d : String)
    → holds (λ w. digest w == d) (get m k) ≡ true
    → At digest m k d
found-At digest m k d h = elim (Option-cases (get m k)) [
  | inl e ↦ cc (h, ap (holds (λ w. digest w == d)) e)
  | inr (w, e) ↦ (w, e, (eq_iff (digest w) d).0 (sym (ap (holds (λ w. digest w == d)) e) ∙ h))
]

pub named :
    {W : Type 0} (m : Dict W) (k : String) → is_some (get m k) ≡ true → At (λ (w : W). "") m k ""
named m k h = elim (Option-cases (get m k)) [
  | inl e ↦ cc (h, ap is_some e)
  | inr (w, e) ↦ (w, e, refl)
]

module _ {V W : Type 0} where
  pub Refers-target :
      (digest : W → String) (targets targets' : Dict W) (k d : V → String) (m : Dict V)
      → IsFrozen digest targets targets'
      → Refers digest targets k d m
      → Refers digest targets' k d m
  Refers-target digest targets targets' k d m frozen r = record {
    refers = λ j v h.
        let (w, e, same) = r.refers j v h in
        let (w', e', same') = frozen.kept (k v) w e in (w', e', same' ∙ same);
  }

  pub Names-target :
      (digest : W → String) (targets targets' : Dict W) (k : V → String) (m : Dict V)
      → IsFrozen digest targets targets'
      → Names targets k m
      → Names targets' k m
  Names-target digest targets targets' k m frozen r = record {
    refers = λ j v h.
        let (w, e, same) = r.refers j v h in
        let (w', e', same') = frozen.kept (k v) w e in (w', e', refl);
  }

  pub Names-grown :
      (targets targets' : Dict W) (k : V → String) (m : Dict V)
      → Grows targets targets'
      → Names targets k m
      → Names targets' k m
  Names-grown targets targets' k m grows r = record {
    refers = λ j v h.
        let (w, e, same) = r.refers j v h in named targets' (k v) (grows.keeps (k v) (rw e refl));
  }

  pub Refers-put :
      (digest : W → String) (targets : Dict W) (k d : V → String) (m : Dict V) (i : String) (x : V)
      → At digest targets (k x) (d x)
      → Refers digest targets k d m
      → Refers digest targets k d (put m i x)
  Refers-put digest targets k d m i x at r = record {
    refers = λ j v h. split j v h (Bool-cases (i == j));
  }
    where
      split :
          (j : String) (v : V)
          → get (put m i x) j ≡ some v
          → ((i == j) ≡ true) ⊎ ((i == j) ≡ false)
          → At digest targets (k v) (d v)
      split j v h (inl e) =
          subst (λ y. At digest targets (k y) (d y))
            (cc (h, get-put m i j x, ap (λ b. if b then some x else get m j) e)) at
      split j v h (inr e) =
          r.refers j v (sym (get-put m i j x ∙ ap (λ b. if b then some x else get m j) e) ∙ h)

  pub Refers-put_all :
      (digest : W → String) (targets : Dict W) (k d key : V → String) (m : Dict V) (xs : List V)
      → All (λ x. At digest targets (k x) (d x)) xs
      → Refers digest targets k d m
      → Refers digest targets k d (put_all key m xs)
  unfolding put_all
  Refers-put_all digest targets k d key m [] all r = r
  Refers-put_all digest targets k d key m (x ∷ xs) (at, all) r =
      Refers-put_all digest targets k d key (put m (key x) x) xs all
        (Refers-put digest targets k d m (key x) x at r)

  Refers-mark_all :
      (digest : W → String) (targets : Dict W) (k d own : V → String) (mark : V → V)
      → ((v : V) → own (mark v) ≡ own v)
      → ((v : V) → mark (mark v) ≡ mark v)
      → ((v : V) → k (mark v) ≡ k v)
      → ((v : V) → d (mark v) ≡ d v)
      → (wanted : ValidationSubjectKind → Bool) (m : Dict V) (ss : List ValidationSubjectRef)
      → Refers digest targets k d m
      → Refers digest targets k d (mark_all own mark wanted m ss)
  Refers-mark_all digest targets k d own mark keeps twice same_k same_d wanted m ss r = record {
    refers = λ j v h.
        marked j v (sym (get-mark_all own mark keeps twice wanted m ss j) ∙ h)
          (Option-cases (get m j));
  }
    where
      of_old :
          (b : Bool) (u : V)
          → At digest targets (k u) (d u)
          → At digest targets (k (if b then mark u else u)) (d (if b then mark u else u))
      of_old true u at = rw (same_k u, same_d u) at
      of_old false u at = at

      marked :
          (j : String) (v : V)
          → map_option (mark_named own mark wanted ss j) (get m j) ≡ some v
          → (get m j ≡ none) ⊎ ((u : V) × (get m j ≡ some u))
          → At digest targets (k v) (d v)
      marked j v h (inl e) = cc (h, ap (map_option (mark_named own mark wanted ss j)) e)
      marked j v h (inr (u, e)) =
          subst (λ y. At digest targets (k y) (d y))
            (cc (h, ap (map_option (mark_named own mark wanted ss j)) e))
            (of_old (is_named wanted ss j (own u)) u (r.refers j u e))

-- A review of evidence and of reports, and a validation of results, leaves the references as they
-- are.
pub Names-evidence :
    {W : Type 0} (targets : Dict W) (status : ReviewStatus) (m : Dict EvidenceRecord)
    (ss : List ValidationSubjectRef)
    → Names targets (λ (e : EvidenceRecord). e.source_id) m
    → Names targets
        (λ (e : EvidenceRecord). e.source_id)
        (mark_all (λ r. r.digest) (set_evidence_review status) is_evidence m ss)
Names-evidence targets status =
    Refers-mark_all _ targets _ _ _ _ (λ v. refl) (λ v. refl) (λ v. refl) (λ v. refl) is_evidence

pub Refers-reports :
    {W : Type 0} (digest : W → String) (targets : Dict W) (k d : ReproductionReport → String)
    (same_k : (status : ReviewStatus) (v : ReproductionReport)
      → k (record v { review_status = status }) ≡ k v)
    (same_d : (status : ReviewStatus) (v : ReproductionReport)
      → d (record v { review_status = status }) ≡ d v)
    (status : ReviewStatus) (m : Dict ReproductionReport) (ss : List ValidationSubjectRef)
    → Refers digest targets k d m
    → Refers digest targets k d
        (mark_all (λ r. r.digest) (set_report_review status) is_reproduction_report m ss)
Refers-reports digest targets k d same_k same_d status =
    Refers-mark_all digest targets k d _ _ (λ v. refl) (λ v. refl) (same_k status) (same_d status)
      is_reproduction_report

pub Refers-results :
    {W : Type 0} (digest : W → String) (targets : Dict W) (k d : ResultRecord → String)
    (same_k : (status : ValidationStatus) (v : ResultRecord)
      → k (record v { validation_status = status }) ≡ k v)
    (same_d : (status : ValidationStatus) (v : ResultRecord)
      → d (record v { validation_status = status }) ≡ d v)
    (status : ValidationStatus) (m : Dict ResultRecord) (ss : List ValidationSubjectRef)
    → Refers digest targets k d m
    → Refers digest targets k d
        (mark_all (λ r. r.digest) (set_validation_status status) is_result m ss)
Refers-results digest targets k d same_k same_d status =
    Refers-mark_all digest targets k d _ _ (λ v. refl) (λ v. refl) (same_k status) (same_d status)
      is_result

pub Refers-empty :
    {V W : Type 0} (digest : W → String) (targets : Dict W) (k d : V → String)
    → Refers digest targets k d []
unfolding get
Refers-empty digest targets k d = record { refers = λ j v h. cc }
