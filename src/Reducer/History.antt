-- ===== src/Reducer/History.antt =====
-- What an update of a map keeps, and what holds of the state that an event makes (reducer.ts).
use georesearch_dsh.Prelude.{
  String, ◌≡◌, Bool, true, false, Option, none, some, arith, Result, ok, err,
}
use georesearch_dsh.Dict.{Dict, get, put, get-put}
use georesearch_dsh.Contracts.Event.{ProjectEventData, artifact_upload_rolled_back}

abbrev pub is_some {ℓ} : {V : Type ℓ} → Option V → Bool
is_some none = false
is_some (some v) = true

-- Every key of `m` is a key of `n`.
pub record Grows {ℓ} {V : Type ℓ} (m n : Dict V) : Type ℓ where
  pub keeps : (k : String) → is_some (get m k) ≡ true → is_some (get n k) ≡ true

module _ {ℓ} {V : Type ℓ} where
  pub Grows-put : (m : Dict V) (k : String) (v : V) → Grows m (put m k v)
  Grows-put m i v = record { keeps = λ k h. rw get-put (ground arith) }

-- What holds of the state, if there is one.
abbrev pub Ensures {ℓ κ} : {A : Type ℓ} → (A → Type κ) → Result A → Type κ
Ensures P (ok a) = P a
Ensures P (err e) = Unit

abbrev pub rolls_back : ProjectEventData → Bool
rolls_back (artifact_upload_rolled_back k a d w) = true
rolls_back _ = false
