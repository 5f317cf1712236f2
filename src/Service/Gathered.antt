-- ===== src/Service/Gathered.antt =====
-- What `collectWritingInputs` gathers.
use mathlib.Core.List.{Memᴰ}
use georesearch_dsh.Prelude.{
  String, ◌≡◌, refl, ap, subst, ◌∙◌, Bool, true, false, ◌||◌, not, Option, none, some, List, [],
  ◌∷◌, ◌++◌, arith, ◌==◌, eq_iff, map, filter_if, includes, includes_head, includes_tail,
  includes_cases, ok, ◌>>=◌, >>=-ok_parts, Bool-cases, inl, inr, ok-injective,
}
use georesearch_dsh.Dict.{Dict, get, or_empty}
use georesearch_dsh.Contracts.Claim.{ClaimRecord}
use georesearch_dsh.Contracts.State.{ProjectReducerState}
use georesearch_dsh.Service.Guards.{sort_by, insert_by}
use georesearch_dsh.Service.Closure.{
  WritingInputClosure, collect_writing_inputs, gather, required_all, required, distinct, concat_map,
  evidence_ids, result_ids,
}

includes-filter_if :
    (k x : String) (ys : List String)
    → includes k ys ≡ true
    → (k == x) ≡ false
    → includes k (filter_if (λ y. not (y == x)) ys) ≡ true
unfolding includes filter_if
includes-filter_if k x [] h other = h
includes-filter_if k x (y ∷ ys) h other =
    ground (arith, h, other, eq_iff k y, eq_iff k x, eq_iff y x, includes-filter_if k x ys)

pub includes-distinct :
    (k : String) (xs : List String) → includes k xs ≡ true → includes k (distinct xs) ≡ true
unfolding includes distinct
includes-distinct k [] h = h
includes-distinct k (x ∷ xs) h =
    ground (arith, h, includes-filter_if k x (distinct xs), includes-distinct k xs)

-- The record under `k` is on file and among those that were gathered.
pub record IsGathered {A : Type 0} (m : Dict A) (found : List A) (k : String) : Type 0 where
  pub it : A
  pub filed : get m k ≡ some it
  pub member : Memᴰ it found

module _ {A : Type 0} where
  required_all-gathers :
      (m : Dict A) (ks : List String) (found : List A) (k : String)
      → required_all m ks ≡ ok found
      → includes k ks ≡ true
      → IsGathered m found k
  unfolding required_all includes
  required_all-gathers m [] found k h listed = cc
  required_all-gathers m (j ∷ ks) found k h listed =
      let (a, first, more) =
        >>=-ok_parts (required (get m j)) (λ a. required_all m ks >>= λ rest. ok (a ∷ rest)) h in
      let (rest, second, both) = >>=-ok_parts (required_all m ks) (λ rest. ok (a ∷ rest)) more in
      subst (λ f. IsGathered m f k) (ok-injective both)
        (elim (includes_cases k j ks listed) [
          | inl e ↦ record {
            it = a;
            filed = ap (get m) e ∙ here (get m j) a first;
            member = Memᴰ.head refl;
          }
          | inr t ↦
              let later = required_all-gathers m ks rest k second t in
              record { it = later.it; filed = later.filed; member = Memᴰ.tail later.member }
        ])
    where
      here : (o : Option A) (b : A) → required o ≡ ok b → o ≡ some b
      here none b e = cc
      here (some c) b e = ground (arith, e)

  insert_by-keeps :
      (le : String → String → Bool) (key : A → String) (a x : A) (xs : List A)
      → Memᴰ a (x ∷ xs)
      → Memᴰ a (insert_by le key x xs)
  insert_by-keeps le key a x [] m = m
  insert_by-keeps le key a x (y ∷ ys) m = elim (Bool-cases (le (key x) (key y))) [
    | inl e ↦ rw e m
    | inr e ↦ rw e (later (insert_by-keeps le key a x ys) m)
  ]
    where
      later :
          (Memᴰ a (x ∷ ys) → Memᴰ a (insert_by le key x ys))
          → Memᴰ a (x ∷ y ∷ ys)
          → Memᴰ a (y ∷ insert_by le key x ys)
      later shorter (Memᴰ.head h) = Memᴰ.tail (shorter (Memᴰ.head h))
      later shorter (Memᴰ.tail (Memᴰ.head h)) = Memᴰ.head h
      later shorter (Memᴰ.tail (Memᴰ.tail t)) = Memᴰ.tail (shorter (Memᴰ.tail t))

  pub sort_by-keeps :
      (le : String → String → Bool) (key : A → String) (a : A) (xs : List A)
      → Memᴰ a xs
      → Memᴰ a (sort_by le key xs)
  unfolding sort_by
  sort_by-keeps le key a [] m = m
  sort_by-keeps le key a (x ∷ xs) (Memᴰ.head h) =
      insert_by-keeps le key a x (sort_by le key xs) (Memᴰ.head h)
  sort_by-keeps le key a (x ∷ xs) (Memᴰ.tail t) =
      insert_by-keeps le key a x (sort_by le key xs) (Memᴰ.tail (sort_by-keeps le key a xs t))

  gather-gathers :
      (le : String → String → Bool) (key : A → String) (m : Dict A) (ks : List String)
      (found : List A) (k : String)
      → gather le key m ks ≡ ok found
      → includes k ks ≡ true
      → IsGathered m found k
  unfolding gather
  gather-gathers le key m ks found k h listed =
      let (all, first, last) =
        >>=-ok_parts (required_all m (distinct ks)) (λ found. ok (sort_by le key found)) h in
      let one = required_all-gathers m (distinct ks) all k first (includes-distinct k ks listed) in
      record {
        it = one.it;
        filed = one.filed;
        member =
            subst (Memᴰ one.it) (ok-injective last) (sort_by-keeps le key one.it all one.member);
      }

includes-append :
    (k : String) (xs ys : List String) → includes k (xs ++ ys) ≡ (includes k xs || includes k ys)
unfolding includes
includes-append k [] ys = refl
includes-append k (x ∷ xs) ys = ground (arith, includes-append k xs ys)

includes-concat_map :
    {A : Type 0} (f : A → List String) (k : String) (a : A) (xs : List A)
    → Memᴰ a xs
    → includes k (f a) ≡ true
    → includes k (concat_map f xs) ≡ true
includes-concat_map f k a [] m h = elim m [ ]
includes-concat_map f k a (x ∷ xs) (Memᴰ.head e) h = rw includes-append (ground (arith, ap f e, h))
includes-concat_map f k a (x ∷ xs) (Memᴰ.tail t) h =
    rw includes-append (ground (arith, includes-concat_map f k a xs t h))

pub includes-map :
    {A : Type 0} (f : A → String) (a : A) (xs : List A)
    → Memᴰ a xs
    → includes (f a) (map f xs) ≡ true
includes-map f a [] m = elim m [ ]
includes-map f a (x ∷ xs) (Memᴰ.head e) = includes_head (f a) (f x) (map f xs) (ap f e)
includes-map f a (x ∷ xs) (Memᴰ.tail t) =
    includes_tail (f a) (f x) (map f xs) (includes-map f a xs t)

-- An evidence record and its source.
pub record HasEvidence (s : ProjectReducerState) (c : WritingInputClosure) (k : String)
    : Type 0 where
  pub evidence : IsGathered (or_empty s.evidence) c.evidence k
  pub source : IsGathered (or_empty s.sources) c.sources evidence.it.source_id

-- A result, its run and its experiment spec.
pub record HasResult (s : ProjectReducerState) (c : WritingInputClosure) (k : String) : Type 0 where
  pub result : IsGathered (or_empty s.results) c.results k
  pub run : IsGathered s.runs c.runs result.it.run_id
  pub spec :
      IsGathered (or_empty s.experiment_specs) c.experiment_specs result.it.experiment_spec_id

module _ (le : String → String → Bool) (s : ProjectReducerState) (claims : List ClaimRecord)
    (c : WritingInputClosure) (collected : collect_writing_inputs le s claims ≡ ok c)
    (claim : ClaimRecord) (member : Memᴰ claim claims) (k : String) where
  pub evidence_gathered : includes k (evidence_ids claim) ≡ true → HasEvidence s c k
  unfolding collect_writing_inputs
  evidence_gathered named =
      let evidence =
        gather-gathers le (λ e. e.evidence_id) (or_empty s.evidence)
          (concat_map evidence_ids claims) c.evidence k (ground (arith, collected))
          (includes-concat_map evidence_ids k claim claims member named) in
      record {
        evidence = evidence;
        source =
            gather-gathers le (λ e. e.source_id) (or_empty s.sources)
              (map (λ e. e.source_id) c.evidence) c.sources evidence.it.source_id
              (ground (arith, collected))
              (includes-map (λ e. e.source_id) evidence.it c.evidence evidence.member);
      }

  pub result_gathered : includes k (result_ids claim) ≡ true → HasResult s c k
  unfolding collect_writing_inputs
  result_gathered named =
      let result =
        gather-gathers le (λ r. r.result_id) (or_empty s.results) (concat_map result_ids claims)
          c.results k (ground (arith, collected))
          (includes-concat_map result_ids k claim claims member named) in
      record {
        result = result;
        run =
            gather-gathers le (λ r. r.run_id) s.runs (map (λ r. r.run_id) c.results) c.runs
              result.it.run_id (ground (arith, collected))
              (includes-map (λ r. r.run_id) result.it c.results result.member);
        spec =
            gather-gathers le (λ e. e.spec_id) (or_empty s.experiment_specs)
              (map (λ r. r.experiment_spec_id) c.results) c.experiment_specs
              result.it.experiment_spec_id (ground (arith, collected))
              (includes-map (λ r. r.experiment_spec_id) result.it c.results result.member);
      }
