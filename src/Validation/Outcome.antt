-- ===== src/Validation/Outcome.antt =====
-- What it takes for a validation to pass (packages/contracts/src/phase6.ts).
use mathlib.Core.List.{Memᴰ}
use georesearch_dsh.Prelude.{
  String, ◌≡◌, ◌≢◌, ◌⊎◌, refl, sym, ap, ◌∙◌, Bool, true, false, ◌&&◌, Option, none, some, List, [],
  ◌∷◌, ◌==◌, eq_iff, length, any, all, if◌then◌else◌, arith, Bool-cases, inl, inr,
}
use georesearch_dsh.Dict.{get}
use georesearch_dsh.Contracts.Dataset.{Overall}
use georesearch_dsh.Contracts.Validation.{ValidationValidatorSpec, ValidationValidatorResult}
use georesearch_dsh.Reducer.Lookup.{latest, get-put_all}
use georesearch_dsh.Validation.{
  by_id, answers, answered, is_stuck, is_failed, derive_validation_overall,
}

module _ {ℓ} {A : Type ℓ} (p : A → Bool) where
  all-Mem : (xs : List A) (x : A) → all p xs ≡ true → Memᴰ x xs → p x ≡ true
  unfolding all
  all-Mem [] x h m = elim m [ ]
  all-Mem (y ∷ ys) x h (Memᴰ.head e) = ap p e ∙ ground (arith, h)
  all-Mem (y ∷ ys) x h (Memᴰ.tail m) = all-Mem ys x (ground (arith, h)) m

  any-Mem : (xs : List A) (x : A) → any p xs ≡ false → Memᴰ x xs → p x ≡ false
  unfolding any
  any-Mem [] x h m = elim m [ ]
  any-Mem (y ∷ ys) x h (Memᴰ.head e) = ap p e ∙ ground (arith, h)
  any-Mem (y ∷ ys) x h (Memᴰ.tail m) = any-Mem ys x (ground (arith, h)) m

abbrev id_of : ValidationValidatorResult → String
id_of r = r.validator_id

latest-Mem :
    (k : String) (rs : List ValidationValidatorResult) (o : Option ValidationValidatorResult)
    (r : ValidationValidatorResult)
    → latest id_of k rs o ≡ some r
    → (Memᴰ r rs × (r.validator_id ≡ k)) ⊎ (o ≡ some r)
latest-Mem k [] o r h = inr h
latest-Mem k (x ∷ xs) o r h = elim (latest-Mem k xs _ r h) [
  | inl (m, e) ↦ inl (Memᴰ.tail m, e)
  | inr e ↦ newest (Bool-cases (x.validator_id == k)) e
]
  where
    newest :
        (x.validator_id == k ≡ true) ⊎ (x.validator_id == k ≡ false)
        → (if x.validator_id == k then some x else o) ≡ some r
        → (Memᴰ r (x ∷ xs) × (r.validator_id ≡ k)) ⊎ (o ≡ some r)
    newest (inl same) e =
        let x≡r : x ≡ r = cc (same, e) in
        inl (Memᴰ.head (sym x≡r), ap id_of (sym x≡r) ∙ (eq_iff x.validator_id k).0 same)
    newest (inr other) e = inr (cc (other, e))

-- A result that the map has for an id is one of the list, and has the id.
by_id-Mem :
    (rs : List ValidationValidatorResult) (k : String) (r : ValidationValidatorResult)
    → get (by_id rs) k ≡ some r
    → Memᴰ r rs × (r.validator_id ≡ k)
unfolding by_id get
by_id-Mem rs k r h = elim (latest-Mem k rs none r (sym (get-put_all id_of [] rs k) ∙ h)) [
  | inl found ↦ found
  | inr missing ↦ cc missing
]

-- `r` is the result that the plan asks of `v`, and it lets the validation pass.
pub record Answers (v : ValidationValidatorSpec) (r : ValidationValidatorResult) : Type 0 where
  pub same_id : r.validator_id ≡ v.validator_id
  pub same_version : r.version ≡ v.version
  pub same_mandatory : r.mandatory ≡ v.mandatory
  pub same_config : r.config_digest ≡ v.config_digest
  pub not_failed : is_failed r.status ≡ false
  pub not_stuck : (r.mandatory && is_stuck r.status) ≡ false

answered_by :
    (v : ValidationValidatorSpec) (o : Option ValidationValidatorResult)
    → answered v o ≡ true
    → (r : ValidationValidatorResult) × (o ≡ some r) × (answers v r ≡ true)
answered_by v none h = cc
answered_by v (some r) h = (r, refl, h)

-- The tests that a validation passes.
passed_tests :
    (vs : List ValidationValidatorSpec) (rs : List ValidationValidatorResult)
    → derive_validation_overall vs rs ≡ Overall.passed
    → (all (λ v. answered v (get (by_id rs) v.validator_id)) vs ≡ true)
      × (any (λ r. r.mandatory && is_stuck r.status) rs ≡ false)
      × (any (λ r. is_failed r.status) rs ≡ false)
      × (length rs ≡ length vs)
unfolding derive_validation_overall
passed_tests vs rs h = ground (arith, h)

pass :
    (v : ValidationValidatorSpec) (r : ValidationValidatorResult)
    → answers v r ≡ true
    → r.validator_id ≡ v.validator_id
    → is_failed r.status ≡ false
    → (r.mandatory && is_stuck r.status) ≡ false
    → Answers v r
pass v r a e nf ns = record {
  same_id = e;
  same_version = (eq_iff r.version v.version).0 (ground (arith, a));
  same_mandatory = ground (arith, a);
  same_config = (eq_iff r.config_digest v.config_digest).0 (ground (arith, a));
  not_failed = nf;
  not_stuck = ns;
}

-- If a validation passes, there are as many results as validators, and for every validator of the
-- plan there is a result with its id, at its version, configuration and obligation, that has not
-- failed and, if the validator is mandatory, is neither blocked nor an error.
pub passed_is_earned :
    (vs : List ValidationValidatorSpec) (rs : List ValidationValidatorResult)
    (v : ValidationValidatorSpec)
    → derive_validation_overall vs rs ≡ Overall.passed
    → Memᴰ v vs
    → (length rs ≡ length vs) × ((r : ValidationValidatorResult) × Memᴰ r rs × Answers v r)
passed_is_earned vs rs v h m =
    let (answered_all, none_stuck, none_failed, same_length) = passed_tests vs rs h in
    let (r, found, a) =
      answered_by v (get (by_id rs) v.validator_id)
        (all-Mem (λ v. answered v (get (by_id rs) v.validator_id)) vs v answered_all m) in
    let (i, e) = by_id-Mem rs v.validator_id r found in
    (
      same_length,
      (
        r,
        i,
        pass v r a e (any-Mem (λ r. is_failed r.status) rs r none_failed i)
            (any-Mem (λ r. r.mandatory && is_stuck r.status) rs r none_stuck i),
      ),
    )

-- A result that has failed keeps the validation from passing, whatever the plan and the other results.
pub failed_keeps_from_passing :
    (vs : List ValidationValidatorSpec) (rs : List ValidationValidatorResult)
    (r : ValidationValidatorResult)
    → Memᴰ r rs
    → is_failed r.status ≡ true
    → derive_validation_overall vs rs ≢ Overall.passed
failed_keeps_from_passing vs rs r m f h =
    cc (f, any-Mem (λ r. is_failed r.status) rs r (passed_tests vs rs h).2 m)
