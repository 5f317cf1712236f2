-- ===== src/Prelude/Results.antt =====
-- Functions that may throw return a result. A `GeoResearchError` is known by its code; of the other
-- errors (`Error`, `TypeError`) callers see only that they are none.
use Prim.Native.String.{String}
use mathlib.Core.Path.{◌≡◌, refl}
use mathlib.Core.Option.{some}

pub data Failure : Type 0 where
  geo_research_error : String → Failure
  other_error : Failure

pub data Result {ℓ} (V : Type ℓ) : Type ℓ where
  err : Failure → Result V
  ok : V → Result V

-- The next computation runs on the value of the first, if there is one.
infixl 5 ◌>>=◌
abbrev pub ◌>>=◌ {ℓ ℓ'} : {V : Type ℓ} {W : Type ℓ'} → Result V → (V → Result W) → Result W
err failure >>= next = err failure
ok v >>= next = next v

-- Both parts of a chain with a value have one.
pub >>=-ok_parts {ℓ ℓ'} :
    {V : Type ℓ} {W : Type ℓ'} {w : W} (first : Result V) (next : V → Result W)
    → (first >>= next) ≡ ok w
    → (v : V) × (first ≡ ok v) × (next v ≡ ok w)
>>=-ok_parts (err failure) next h = cc
>>=-ok_parts (ok v) next h = (v, refl, h)

pub ok-injective {ℓ} : {A : Type ℓ} {a b : A} → ok a ≡ ok b → a ≡ b
ok-injective h = cc

pub some-injective {ℓ} : {A : Type ℓ} {a b : A} → some a ≡ some b → a ≡ b
some-injective h = cc
