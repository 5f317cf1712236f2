-- ===== src/Service/Frozen.antt =====
-- Updates of a map that leave every record on file at its digest.
use georesearch_dsh.Prelude.{
  String, ◌≡◌, ◌⊎◌, refl, sym, ap, ◌∙◌, Bool, true, false, Option, none, some, List, [], ◌∷◌, arith,
  ◌==◌, eq_iff, if◌then◌else◌, All, Result, ok, >>=-ok_parts, inl, inr, Bool-cases,
}
use georesearch_dsh.Dict.{Dict, get, put, get-put, map_option}
use georesearch_dsh.Contracts.Validation.{ValidationSubjectRef, ValidationSubjectKind}
use georesearch_dsh.Contracts.Experiment.{ResultRecord, ValidationStatus}
use georesearch_dsh.Contracts.Evidence.{EvidenceRecord, ReviewStatus}
use georesearch_dsh.Contracts.Reproduction.{ReproductionReport}
use georesearch_dsh.Reducer.Maps.{
  put_all, mark_all, is_result, is_evidence, is_reproduction_report, set_validation_status,
  set_evidence_review, set_report_review,
}
use georesearch_dsh.Reducer.Lookup.{get-put_all, latest, get-mark_all, mark_named}
use georesearch_dsh.Service.Guards.{check_each}

-- A record of `m` is in `n`, too, at the same digest.
pub record IsFrozen {ℓ} {V : Type ℓ} (digest : V → String) (m n : Dict V) : Type ℓ where
  pub kept :
      (k : String) (v : V) → get m k ≡ some v → (w : V) × (get n k ≡ some w) × (digest w ≡ digest v)

pub check_each-All {ℓ} :
    {A : Type ℓ} (check : A → Result (Unit {0})) (xs : List A)
    → check_each check xs ≡ ok tt
    → All (λ x. check x ≡ ok tt) xs
unfolding check_each
check_each-All check [] h = tt
check_each-All check (x ∷ xs) h =
    let (u, first, rest) = >>=-ok_parts (check x) (λ u. check_each check xs) h in
    (first, check_each-All check xs rest)

module _ {ℓ} {V : Type ℓ} where
  pub IsFrozen-refl : (digest : V → String) (m : Dict V) → IsFrozen digest m m
  IsFrozen-refl digest m = record { kept = λ k v h. (v, h, refl) }

  pub IsFrozen-put :
      (digest : V → String) (m : Dict V) (i : String) (v : V)
      → get m i ≡ none
      → IsFrozen digest m (put m i v)
  IsFrozen-put digest m i v new = record {
    kept = λ k w h. (w, ground (arith, get-put m i k v, eq_iff i k), refl);
  }

  -- Each value that is put has the digest of what is on file under its key, if anything is.
  abbrev pub Agrees : (V → String) → (V → String) → Dict V → V → Type ℓ
  Agrees key digest m v = (w : V) → get m (key v) ≡ some w → digest w ≡ digest v

  latest-kept :
      (key digest : V → String) (m : Dict V) (k : String) (v : V) (vs : List V) (o : Option V)
      → get m k ≡ some v
      → All (Agrees key digest m) vs
      → ((u : V) × (o ≡ some u) × (digest u ≡ digest v))
      → (w : V) × (latest key k vs o ≡ some w) × (digest w ≡ digest v)
  latest-kept key digest m k v [] o found all (u, e, same) = (u, e, same)
  latest-kept key digest m k v (x ∷ xs) o found (agrees, all) (u, e, same) =
      latest-kept key digest m k v xs (if key x == k then some x else o) found all
        (step (Bool-cases (key x == k)))
    where
      step :
          ((key x == k) ≡ true) ⊎ ((key x == k) ≡ false)
          → (w : V) × ((if key x == k then some x else o) ≡ some w) × (digest w ≡ digest v)
      step (inl t) = (x, rw t, sym (agrees v (ap (get m) ((eq_iff (key x) k).0 t) ∙ found)))
      step (inr f) = (u, rw f e, same)

  pub IsFrozen-put_all :
      (key digest : V → String) (m : Dict V) (vs : List V)
      → All (Agrees key digest m) vs
      → IsFrozen digest m (put_all key m vs)
  IsFrozen-put_all key digest m vs all = record {
    kept = λ k v h.
        let (w, e, same) = latest-kept key digest m k v vs (get m k) h all (v, h, refl) in
        (w, get-put_all key m vs k ∙ e, same);
  }

IsFrozen-mark_all :
    {V : Type 0} (digest : V → String) (mark : V → V) (keeps : (v : V) → digest (mark v) ≡ digest v)
    (twice : (v : V) → mark (mark v) ≡ mark v) (wanted : ValidationSubjectKind → Bool) (m : Dict V)
    (ss : List ValidationSubjectRef)
    → IsFrozen digest m (mark_all digest mark wanted m ss)
IsFrozen-mark_all digest mark keeps twice wanted m ss = record {
  kept = λ k v h. (
    mark_named digest mark wanted ss k v,
    get-mark_all digest mark keeps twice wanted m ss k
        ∙ ap (map_option (mark_named digest mark wanted ss k)) h,
    ground (arith, keeps v),
  );
}

pub IsFrozen-results :
    (status : ValidationStatus) (m : Dict ResultRecord) (ss : List ValidationSubjectRef)
    → IsFrozen
        (λ r. r.digest)
        m
        (mark_all (λ r. r.digest) (set_validation_status status) is_result m ss)
IsFrozen-results status = IsFrozen-mark_all _ _ (λ r. refl) (λ r. refl) _

pub IsFrozen-evidence :
    (status : ReviewStatus) (m : Dict EvidenceRecord) (ss : List ValidationSubjectRef)
    → IsFrozen
        (λ r. r.digest)
        m
        (mark_all (λ r. r.digest) (set_evidence_review status) is_evidence m ss)
IsFrozen-evidence status = IsFrozen-mark_all _ _ (λ r. refl) (λ r. refl) _

pub IsFrozen-reports :
    (status : ReviewStatus) (m : Dict ReproductionReport) (ss : List ValidationSubjectRef)
    → IsFrozen
        (λ r. r.digest)
        m
        (mark_all (λ r. r.digest) (set_report_review status) is_reproduction_report m ss)
IsFrozen-reports status = IsFrozen-mark_all _ _ (λ r. refl) (λ r. refl) _
