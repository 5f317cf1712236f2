-- ===== src/Reducer/Lookup.antt =====
-- What a lookup finds after each kind of update of a map (reducer.ts).
use georesearch_dsh.Prelude.{
  String, ◌≡◌, refl, Bool, true, false, ◌&&◌, Option, none, some, List, [], ◌∷◌, arith, ◌==◌,
  eq_iff, if◌then◌else◌, includes, Bool-cases, inl, inr, Option-cases, ◌||◌, ◌∙◌, ap,
}
use georesearch_dsh.Dict.{Dict, get, put, get-put, get-map_values, map_option}
use georesearch_dsh.Contracts.Artifact.{ArtifactRecord, ArtifactValidity}
use georesearch_dsh.Contracts.Validation.{ValidationSubjectRef, ValidationSubjectKind}
use georesearch_dsh.Reducer.Maps.{
  put_all, is_current, supersede, publish, stale_all, mark_all, stale_found, mark_found,
}

pub get-publish :
    (m : Dict ArtifactRecord) (a : ArtifactRecord) (k : String)
    → get (publish m a) k
      ≡ (if a.artifact_id == k then some a else map_option (supersede a) (get m k))
unfolding publish
get-publish m a k = rw (get-put, get-map_values)

abbrev pub make_stale : ArtifactRecord → ArtifactRecord
make_stale a = if is_current a.validity then record a { validity = ArtifactValidity.stale } else a

make_stale_twice : (a : ArtifactRecord) → make_stale (make_stale a) ≡ make_stale a
make_stale_twice a = ground arith

get-stale_found :
    (m : Dict ArtifactRecord) (i k : String)
    → get (stale_found m i (get m i)) k
      ≡ (if k == i then map_option make_stale (get m k) else get m k)
get-stale_found m i k = elim (Option-cases (get m i)) [
  | inl e ↦ rw e (ground (arith, eq_iff k i))
  | inr (a, e) ↦ rw e (ground (arith, eq_iff k i, eq_iff i k, get-put m i k (make_stale a)))
]

stale_again :
    (o : Option ArtifactRecord)
    → map_option make_stale (map_option make_stale o) ≡ map_option make_stale o
stale_again none = refl
stale_again (some a) = ap {B = Option ArtifactRecord} some (make_stale_twice a)

-- Two rounds, of which either may mark.
two_rounds :
    (b c : Bool) (o : Option ArtifactRecord)
    → (if c
        then map_option make_stale (if b then map_option make_stale o else o)
        else if b
        then map_option make_stale o
        else o)
      ≡ (if b || c then map_option make_stale o else o)
two_rounds true true o = stale_again o
two_rounds true false o = refl
two_rounds false c o = refl

pub get-stale_all :
    (m : Dict ArtifactRecord) (ids : List String) (k : String)
    → get (stale_all m ids) k
      ≡ (if includes k ids then map_option make_stale (get m k) else get m k)
unfolding stale_all includes
get-stale_all m [] k = refl
get-stale_all m (i ∷ is) k =
    get-stale_all (stale_found m i (get m i)) is k
    ∙ rw get-stale_found (two_rounds (k == i) (includes k is) (get m k))

-- The last of the values with key `k`, or `o` if there is none.
abbrev pub latest {ℓ} : {V : Type ℓ} → (V → String) → String → List V → Option V → Option V
latest key k [] o = o
latest key k (v ∷ vs) o = latest key k vs (if key v == k then some v else o)

pub get-put_all {ℓ} :
    {V : Type ℓ} (key : V → String) (m : Dict V) (vs : List V) (k : String)
    → get (put_all key m vs) k ≡ latest key k vs (get m k)
unfolding put_all
get-put_all key m [] k = refl
get-put_all key m (v ∷ vs) k =
    get-put_all key (put m (key v) v) vs k ∙ ap (latest key k vs) (get-put m (key v) k v)

-- Some subject of the wanted kind names `k` with the digest `d`.
unfoldable pub is_named :
    (ValidationSubjectKind → Bool) → List ValidationSubjectRef → String → String → Bool
is_named wanted [] k d = false
is_named wanted (s ∷ ss) k d =
    wanted s.kind && (s.subject_id == k && d == s.digest) || is_named wanted ss k d

module _ {V : Type 0} (digest : V → String) (mark : V → V) where
  -- A record is marked if a subject names it at the digest that it has.
  abbrev pub mark_named :
      (ValidationSubjectKind → Bool) → List ValidationSubjectRef → String → V → V
  mark_named wanted ss k v = if is_named wanted ss k (digest v) then mark v else v

  get-mark_found :
      (m : Dict V) (s : ValidationSubjectRef) (k : String)
      → get (mark_found digest mark m s (get m s.subject_id)) k
        ≡ map_option
            (λ v. if s.subject_id == k && digest v == s.digest then mark v else v)
            (get m k)
  get-mark_found m s k = elim (Option-cases (get m s.subject_id)) [
    | inl e ↦ rw e (ground (arith, eq_iff s.subject_id k))
    | inr (v, e) ↦ rw e (ground (arith, eq_iff s.subject_id k, get-put m s.subject_id k (mark v)))
  ]

  module _ (keeps : (v : V) → digest (mark v) ≡ digest v)
      (twice : (v : V) → mark (mark v) ≡ mark v) where
    then_mark :
        (wanted : ValidationSubjectKind → Bool) (ss : List ValidationSubjectRef) (k : String)
        (b : Bool) (v : V)
        → mark_named wanted ss k (if b then mark v else v)
          ≡ (if b || is_named wanted ss k (digest v) then mark v else v)
    then_mark wanted ss k false v = refl
    then_mark wanted ss k true v =
        rw (keeps v) (elim (Bool-cases (is_named wanted ss k (digest v))) [
          | inl e ↦ rw e (twice v)
          | inr e ↦ rw e
        ])

    then_mark_option :
        (wanted : ValidationSubjectKind → Bool) (ss : List ValidationSubjectRef) (k : String)
        (b : V → Bool) (o : Option V)
        → map_option (mark_named wanted ss k) (map_option (λ v. if b v then mark v else v) o)
          ≡ map_option (λ v. if b v || is_named wanted ss k (digest v) then mark v else v) o
    then_mark_option wanted ss k b none = refl
    then_mark_option wanted ss k b (some v) = ap {B = Option V} some (then_mark wanted ss k (b v) v)

    pub get-mark_all :
        (wanted : ValidationSubjectKind → Bool) (m : Dict V) (ss : List ValidationSubjectRef)
        (k : String)
        → get (mark_all digest mark wanted m ss) k ≡ map_option (mark_named wanted ss k) (get m k)
    unfolding mark_all is_named
    get-mark_all wanted m [] k = ground arith
    get-mark_all wanted m (s ∷ ss) k =
        get-mark_all wanted (if wanted s.kind then found else m) ss k ∙ step (wanted s.kind)
      where
        found : Dict V
        found = mark_found digest mark m s (get m s.subject_id)

        step :
            (b : Bool)
            → map_option (mark_named wanted ss k) (get (if b then found else m) k)
              ≡ map_option
                  (λ v.
                    if b && (s.subject_id == k && digest v == s.digest)
                      || is_named wanted ss k (digest v)
                    then mark v
                    else v)
                  (get m k)
        step true = rw get-mark_found (
            then_mark_option wanted ss k (λ v. s.subject_id == k && digest v == s.digest) (get m k))
        step false = refl
