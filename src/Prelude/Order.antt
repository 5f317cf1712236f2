-- ===== src/Prelude/Order.antt =====
-- `[...new Set(xs)].sort()`: the elements of a list, each once, in order. Strings are compared by
-- code points; JavaScript compares UTF-16 units, which orders differently only where a character
-- beyond U+FFFF meets one from U+E000 to U+FFFF.
use Prim.Native.String.{String, compare}
use mathlib.Core.Path.{◌≡◌, refl}
use mathlib.Core.Bool.{◌||◌}
use mathlib.Core.List.{List, [], ◌∷◌}
use native.Mathlib.Omega.{arith}
use text.Mathlib.Text.{◌==◌, is_le}
use text.Mathlib.TextEquality.{eq_iff}
use georesearch_dsh.Prelude.Tests.{if◌then◌else◌}
use georesearch_dsh.Prelude.Lists.{includes}

insert_sorted : String → List String → List String
insert_sorted s [] = s ∷ []
insert_sorted s (x ∷ xs) =
    let rest = insert_sorted s xs in if is_le (compare s x) then s ∷ x ∷ xs else x ∷ rest

unfoldable pub sort_strings : List String → List String
unfolding insert_sorted
sort_strings [] = []
sort_strings (x ∷ xs) = insert_sorted x (sort_strings xs)

-- `[...new Set(xs)]` keeps the first of equal strings; which one is kept cannot be seen.
unfoldable pub unique : List String → List String
unfolding includes
unique [] = []
unique (x ∷ xs) = let rest = unique xs in if includes x xs then rest else x ∷ rest

includes-insert_sorted :
    (a s : String) (xs : List String) → includes a (insert_sorted s xs) ≡ (a == s || includes a xs)
unfolding includes insert_sorted
includes-insert_sorted a s [] = refl
includes-insert_sorted a s (x ∷ xs) = ground (arith, includes-insert_sorted a s xs)

pub includes-sort_strings :
    (a : String) (xs : List String) → includes a (sort_strings xs) ≡ includes a xs
unfolding includes sort_strings
includes-sort_strings a [] = refl
includes-sort_strings a (x ∷ xs) =
    ground (arith, includes-insert_sorted a x (sort_strings xs), includes-sort_strings a xs)

pub includes-unique : (a : String) (xs : List String) → includes a (unique xs) ≡ includes a xs
unfolding includes unique
includes-unique a [] = refl
includes-unique a (x ∷ xs) = ground (arith, eq_iff a x, includes-unique a xs, includes_of_eq a x xs)
  where
    includes_of_eq : (b y : String) (ys : List String) → (b ≡ y) → includes b ys ≡ includes y ys
    includes_of_eq b y ys e = rw e
