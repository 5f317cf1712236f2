-- ===== src/Service/Remote.antt =====
-- packages/project-service/src/index.ts: `normalizeRepositoryUrl`, on lists of code points.
use Prim.Native.Char.{code}
use georesearch_dsh.Prelude.{
  ℕ, nat_eq, leb, String, Bool, true, false, ◌&&◌, ◌||◌, Option, none, some, List, [], ◌∷◌, ◌++◌,
  is_empty, if◌then◌else◌,
}

-- The code points of a text. `String` has its own `[]` and `∷`.
abbrev pub codes : String → List ℕ
codes String.[] = []
codes (String.◌∷◌ c s) = code c ∷ codes s

-- White space and line terminators, as `trim` removes them
unfoldable pub is_space : ℕ → Bool
is_space c =
    (leb 9 c && leb c 13)
    || nat_eq c 32
    || nat_eq c 160
    || nat_eq c 5760
    || (leb 8192 c && leb c 8202)
    || nat_eq c 8232
    || nat_eq c 8233
    || nat_eq c 8239
    || nat_eq c 8287
    || nat_eq c 12288
    || nat_eq c 65279

unfoldable pub trim_start : List ℕ → List ℕ
trim_start [] = []
trim_start (c ∷ s) = let rest = trim_start s in if is_space c then rest else c ∷ s

unfoldable pub trim_end : List ℕ → List ℕ
trim_end [] = []
trim_end (c ∷ s) = let rest = trim_end s in if is_space c && is_empty rest then [] else c ∷ rest

-- A letter in either case, and the long s, which the flags `iu` take for an s
abbrev letter : ℕ → ℕ → ℕ → Bool
letter lower upper c = nat_eq c lower || nat_eq c upper

abbrev letter_s : ℕ → Bool
letter_s c = letter b's' b'S' c || nat_eq c 383

-- What comes after characters that pass these tests, if the text starts with such.
abbrev pub after : List (ℕ → Bool) → List ℕ → Option (List ℕ)
after [] s = some s
after (test ∷ tests) [] = none
after (test ∷ tests) (c ∷ s) = let rest = after tests s in if test c then rest else none

-- The longest prefix without a character of a kind, and the rest.
unfoldable pub span : (ℕ → Bool) → List ℕ → List ℕ × List ℕ
span stop [] = ([], [])
span stop (c ∷ s) =
    let (prefix, rest) = span stop s in if stop c then ([], c ∷ s) else (c ∷ prefix, rest)

abbrev pub https : List ℕ
https = codes "https://"

abbrev pub is_colon : ℕ → Bool
is_colon c = nat_eq c b':'

-- `.replace(/^git@([^:]+):/iu, 'https://$1/')`
unfoldable pub replace_scp : List ℕ → List ℕ
replace_scp s =
    by_prefix (after (letter b'g' b'G' ∷ letter b'i' b'I' ∷ letter b't' b'T' ∷ nat_eq b'@' ∷ []) s)
  where
    by_host : List ℕ × List ℕ → List ℕ
    by_host (x ∷ host, c ∷ path) = https ++ (x ∷ host ++ (b'/' ∷ path))
    by_host _ = s

    by_prefix : Option (List ℕ) → List ℕ
    by_prefix none = s
    by_prefix (some rest) = by_host (span is_colon rest)

abbrev pub ends_user : ℕ → Bool
ends_user c = nat_eq c b'@' || nat_eq c b'/'

-- `(?:[^@/]+@)?`
unfoldable pub drop_user : List ℕ → List ℕ
drop_user s = by_user (span ends_user s)
  where
    by_user : List ℕ × List ℕ → List ℕ
    by_user (x ∷ user, c ∷ rest) = if nat_eq c b'@' then rest else s
    by_user _ = s

-- `.replace(/^ssh:\/\/(?:[^@/]+@)?/iu, 'https://')`
unfoldable pub replace_ssh : List ℕ → List ℕ
replace_ssh s = by_prefix (
    after (letter_s ∷ letter_s ∷ letter b'h' b'H' ∷ nat_eq b':' ∷ nat_eq b'/' ∷ nat_eq b'/' ∷ []) s)
  where
    by_prefix : Option (List ℕ) → List ℕ
    by_prefix none = s
    by_prefix (some rest) = https ++ drop_user rest

-- The text is `.git` or `.git/`.
unfoldable pub is_git_suffix : List ℕ → Bool
is_git_suffix s =
    ends (after (nat_eq b'.' ∷ letter b'g' b'G' ∷ letter b'i' b'I' ∷ letter b't' b'T' ∷ []) s)
  where
    ends : Option (List ℕ) → Bool
    ends (some []) = true
    ends (some (c ∷ [])) = nat_eq c b'/'
    ends _ = false

-- `.replace(/\.git\/?$/iu, '')`
unfoldable pub strip_git : List ℕ → List ℕ
strip_git [] = []
strip_git (c ∷ s) = let rest = strip_git s in if is_git_suffix (c ∷ s) then [] else c ∷ rest

-- `.replace(/\/$/u, '')`
unfoldable pub strip_slash : List ℕ → List ℕ
strip_slash [] = []
strip_slash (c ∷ []) = if nat_eq c b'/' then [] else c ∷ []
strip_slash (c ∷ d ∷ s) = c ∷ strip_slash (d ∷ s)

module _ (to_lower_case : List ℕ → List ℕ) where
  unfoldable pub normalize_repository_url : List ℕ → List ℕ
  normalize_repository_url value =
      to_lower_case
        (strip_slash (strip_git (replace_ssh (replace_scp (trim_end (trim_start value))))))
