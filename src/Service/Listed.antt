-- ===== src/Service/Listed.antt =====
-- Records that are put one after the other are found under their keys.
use georesearch_dsh.Prelude.{
  suc, ◌≤◌, String, ◌≡◌, refl, ap, ◌∙◌, Bool, true, false, Option, some, List, [], ◌∷◌, arith, ◌==◌,
  eq_iff, eq_refl, nat_eq, all, map, unique, length, includes, if◌then◌else◌, All,
}
use georesearch_dsh.Dict.{Dict, get, put, get-put}
use georesearch_dsh.Reducer.Maps.{put_all}
use georesearch_dsh.Reducer.Lookup.{get-put_all, latest}
use georesearch_dsh.Service.Guards.{holds}

pub found_after_put {ℓ} :
    {V : Type ℓ} (m : Dict V) (k : String) (v : V) (test : V → Bool)
    → test v ≡ true
    → holds test (get (put m k v) k) ≡ true
found_after_put m k v test h = rw (get-put, eq_refl k) h

length-unique : (xs : List String) → length (unique xs) ≤ length xs
unfolding unique
length-unique [] = ground arith
length-unique (x ∷ xs) = ground (arith, length-unique xs)

-- The head of a list without repetitions is not in its tail, which has none either.
unique_parts :
    (x : String) (xs : List String)
    → nat_eq (length (unique (x ∷ xs))) (length (x ∷ xs)) ≡ true
    → (includes x xs ≡ false) × (nat_eq (length (unique xs)) (length xs) ≡ true)
unfolding unique
unique_parts x xs h = (ground (arith, h, length-unique xs), ground (arith, h, length-unique xs))

module _ {V : Type 0} (key : V → String) where
  latest_other :
      (k : String) (vs : List V) (o : Option V)
      → includes k (map key vs) ≡ false
      → latest key k vs o ≡ o
  unfolding includes
  latest_other k [] o h = refl
  latest_other k (v ∷ vs) o h =
      latest_other k vs (if key v == k then some v else o) (ground (arith, h))
      ∙ ground (arith, h, eq_iff (key v) k, eq_iff k (key v))

  -- Each of the values is found under its key after all are put.
  pub All-found :
      (digest : V → String) (vs : List V) (m : Dict V)
      → nat_eq (length (unique (map key vs))) (length (map key vs)) ≡ true
      → All (λ v. holds (λ w. digest w == digest v) (get (put_all key m vs) (key v)) ≡ true) vs
  unfolding put_all
  All-found digest [] m h = tt
  All-found digest (v ∷ vs) m h =
      let (alone, rest) = unique_parts (key v) (map key vs) h in
      let same =
        get-put_all key (put m (key v) v) vs (key v)
        ∙ latest_other (key v) vs (get (put m (key v) v) (key v)) alone in
      (
        ap (holds (λ w. digest w == digest v)) same
            ∙ found_after_put m (key v) v (λ w. digest w == digest v) (eq_refl (digest v)),
        All-found digest vs (put m (key v) v) rest,
      )

pub length-map {ℓ} : {A : Type ℓ} (f : A → String) (xs : List A) → length (map f xs) ≡ length xs
length-map f [] = refl
length-map f (x ∷ xs) = ap suc (length-map f xs)

pub all-All {ℓ} :
    {A : Type ℓ} (test : A → Bool) (xs : List A) → All (λ x. test x ≡ true) xs → all test xs ≡ true
unfolding all
all-All test [] h = refl
all-All test (x ∷ xs) (first, rest) = ground (arith, first, all-All test xs rest)
