-- ===== src/Prelude/Lists.antt =====
-- Lists over the native numbers, and the tests of a JavaScript array.
use Prim.Native.Nat.{ℕ, suc, ◌+◌}
use Prim.Native.String.{String}
use mathlib.Core.Path.{◌≡◌}
use mathlib.Core.Bool.{Bool, true, false, ◌||◌, ◌&&◌}
use mathlib.Core.Option.{Option, none, some}
use mathlib.Core.List.{List, [], ◌∷◌, ◌++◌}
use native.Mathlib.Omega.{arith}
use text.Mathlib.Text.{◌==◌}
use text.Mathlib.TextEquality.{eq_iff}
use mathlib.Core.Logic.{◌⊎◌}
use georesearch_dsh.Prelude.Tests.{if◌then◌else◌}

abbrev pub length {ℓ} : {A : Type ℓ} → List A → ℕ
length [] = 0
length (x ∷ xs) = suc (length xs)

pub length-append {ℓ} : {A : Type ℓ} (xs ys : List A) → length (xs ++ ys) ≡ length xs + length ys
length-append [] ys = omega arith
length-append (x ∷ xs) ys = omega (arith, length-append xs ys)

-- `xs.length === 0`
abbrev pub is_empty {ℓ} : {A : Type ℓ} → List A → Bool
is_empty [] = true
is_empty (x ∷ xs) = false

-- `xs.some(p)`
unfoldable pub any {ℓ} : {A : Type ℓ} → (A → Bool) → List A → Bool
any p [] = false
any p (x ∷ xs) = p x || any p xs

-- `xs.every(p)`
unfoldable pub all {ℓ} : {A : Type ℓ} → (A → Bool) → List A → Bool
all p [] = true
all p (x ∷ xs) = p x && all p xs

-- `xs.find(p)`
unfoldable pub find {ℓ} : {A : Type ℓ} → (A → Bool) → List A → Option A
find p [] = none
find p (x ∷ xs) = let rest = find p xs in if p x then some x else rest

-- `xs.filter(p)`
unfoldable pub filter_if {ℓ} : {A : Type ℓ} → (A → Bool) → List A → List A
filter_if p [] = []
filter_if p (x ∷ xs) = let rest = filter_if p xs in if p x then x ∷ rest else rest

-- `xs.includes(s)`, and `set.has(s)` of a set that is kept as the list of its elements
unfoldable pub includes : String → List String → Bool
includes s [] = false
includes s (x ∷ xs) = s == x || includes s xs

-- Every element satisfies `P`.
abbrev pub All {ℓ κ} : {A : Type ℓ} → (A → Type κ) → List A → Type κ
All P [] = Unit
All P (x ∷ xs) = P x × All P xs

pub includes_head : (s x : String) (xs : List String) → s ≡ x → includes s (x ∷ xs) ≡ true
unfolding includes
includes_head s x xs e = ground (arith, eq_iff s x)

pub includes_tail :
    (s x : String) (xs : List String) → includes s xs ≡ true → includes s (x ∷ xs) ≡ true
unfolding includes
includes_tail s x xs h = ground arith

-- A member of a list is its head or a member of its tail.
pub includes_cases :
    (s x : String) (xs : List String)
    → includes s (x ∷ xs) ≡ true
    → (s ≡ x) ⊎ (includes s xs ≡ true)
unfolding includes
includes_cases s x xs h = ground (arith, eq_iff s x)
