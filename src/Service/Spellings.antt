-- ===== src/Service/Spellings.antt =====
-- Spellings of the address of one repository.
use mathlib.Core.List.{append_assoc}
use georesearch_dsh.Prelude.{
  ℕ, ◌≡◌, refl, sym, ap, ◌∙◌, Bool, true, false, List, [], ◌∷◌, ◌++◌, arith, any,
}
use georesearch_dsh.Service.Remote.{
  codes, https, is_space, is_colon, ends_user, trim_start, trim_end, span, replace_scp, replace_ssh,
  drop_user, is_git_suffix, strip_git, strip_slash, normalize_repository_url,
}

-- A character that is no space keeps what is before it.
trim_end-++ :
    (xs : List ℕ) (c : ℕ) (s : List ℕ)
    → is_space c ≡ false
    → trim_end (xs ++ (c ∷ s)) ≡ xs ++ (c ∷ trim_end s)
unfolding trim_end
trim_end-++ [] c s h = ground (arith, h)
trim_end-++ (x ∷ []) c s h = ground (arith, h)
trim_end-++ (x ∷ y ∷ xs) c s h = ground (arith, trim_end-++ (y ∷ xs) c s h)

span-++ :
    (stop : ℕ → Bool) (xs : List ℕ) (c : ℕ) (s : List ℕ)
    → any stop xs ≡ false
    → stop c ≡ true
    → span stop (xs ++ (c ∷ s)) ≡ (xs, c ∷ s)
unfolding span any
span-++ stop [] c s h k = ground (arith, k)
span-++ stop (x ∷ xs) c s h k = ground (arith, h, span-++ stop xs c s (ground (arith, h)) k)

replace_scp-scp :
    (x : ℕ) (host path : List ℕ)
    → any is_colon (x ∷ host) ≡ false
    → replace_scp (codes "git@" ++ (x ∷ host) ++ (b':' ∷ path))
      ≡ https ++ (x ∷ host) ++ (b'/' ∷ path)
unfolding replace_scp
replace_scp-scp x host path h = rw (span-++ is_colon (x ∷ host) b':' path h refl) refl

replace_ssh-ssh :
    (x : ℕ) (user rest : List ℕ)
    → any ends_user (x ∷ user) ≡ false
    → replace_ssh (codes "ssh://" ++ (x ∷ user) ++ (b'@' ∷ rest)) ≡ https ++ rest
unfolding replace_ssh drop_user
replace_ssh-ssh x user rest h = rw (span-++ ends_user (x ∷ user) b'@' rest h refl) refl

-- Only the end of a text is the suffix.
is_git_suffix-longer :
    (c : ℕ) (t s : List ℕ) → is_git_suffix ((c ∷ t) ++ (codes ".git" ++ s)) ≡ false
unfolding is_git_suffix
is_git_suffix-longer c [] s = ground arith
is_git_suffix-longer c (x ∷ []) s = ground arith
is_git_suffix-longer c (x ∷ y ∷ []) s = ground arith
is_git_suffix-longer c (x ∷ y ∷ z ∷ []) s = ground arith
is_git_suffix-longer c (x ∷ y ∷ z ∷ w ∷ []) s = ground arith
is_git_suffix-longer c (x ∷ y ∷ z ∷ w ∷ v ∷ t) s = ground arith

strip_git-suffix :
    (t s : List ℕ)
    → is_git_suffix (codes ".git" ++ s) ≡ true
    → strip_git (t ++ (codes ".git" ++ s)) ≡ t
unfolding strip_git
strip_git-suffix [] s h = ground (arith, h)
strip_git-suffix (c ∷ t) s h = ground (arith, is_git_suffix-longer c t s, strip_git-suffix t s h)

-- `https://host/path`, without `.git`
abbrev pub web_url : List ℕ → List ℕ → List ℕ
web_url host path = https ++ host ++ (b'/' ∷ path)

normal_web :
    (to_lower_case : List ℕ → List ℕ) (host path : List ℕ)
    → normalize_repository_url to_lower_case (web_url host path)
      ≡ to_lower_case (strip_slash (strip_git (web_url host (trim_end path))))
unfolding normalize_repository_url trim_start is_space replace_scp replace_ssh
normal_web to_lower_case host path =
    ap (λ t. to_lower_case (strip_slash (strip_git (replace_ssh (replace_scp t)))))
      (trim_end-++ (https ++ host) b'/' path refl)

normal_scp :
    (to_lower_case : List ℕ → List ℕ) (x : ℕ) (host path : List ℕ)
    → any is_colon (x ∷ host) ≡ false
    → normalize_repository_url to_lower_case (codes "git@" ++ (x ∷ host) ++ (b':' ∷ path))
      ≡ normalize_repository_url to_lower_case (web_url (x ∷ host) path)
unfolding normalize_repository_url trim_start is_space replace_ssh
normal_scp to_lower_case x host path h =
    ap (λ t. to_lower_case (strip_slash (strip_git (replace_ssh t))))
      (ap replace_scp (trim_end-++ (codes "git@" ++ (x ∷ host)) b':' path refl)
        ∙ replace_scp-scp x host (trim_end path) h)
    ∙ sym (normal_web to_lower_case (x ∷ host) path)

normal_ssh :
    (to_lower_case : List ℕ → List ℕ) (y : ℕ) (user host path : List ℕ)
    → any ends_user (y ∷ user) ≡ false
    → normalize_repository_url to_lower_case
        (codes "ssh://" ++ (y ∷ user) ++ (b'@' ∷ host ++ (b'/' ∷ path)))
      ≡ normalize_repository_url to_lower_case (web_url host path)
unfolding normalize_repository_url trim_start is_space replace_scp
normal_ssh to_lower_case y user host path h =
    ap (λ t. to_lower_case (strip_slash (strip_git t)))
      (ap (λ t. replace_ssh (replace_scp t))
          (trim_end-++ (codes "ssh://" ++ (y ∷ user)) b'@' (host ++ (b'/' ∷ path)) refl
            ∙ ap (λ t. codes "ssh://" ++ (y ∷ user) ++ (b'@' ∷ t))
                (trim_end-++ host b'/' path refl))
        ∙ replace_ssh-ssh y user (host ++ (b'/' ∷ trim_end path)) h)
    ∙ sym (normal_web to_lower_case host path)

normal_git :
    (to_lower_case : List ℕ → List ℕ) (host path s : List ℕ)
    → is_git_suffix (codes ".git" ++ s) ≡ true
    → trim_end (codes "git" ++ s) ≡ codes "git" ++ s
    → trim_end path ≡ path
    → strip_git (web_url host path) ≡ web_url host path
    → normalize_repository_url to_lower_case (web_url host (path ++ (codes ".git" ++ s)))
      ≡ normalize_repository_url to_lower_case (web_url host path)
unfolding is_space
normal_git to_lower_case host path s suffix kept trimmed plain =
    normal_web to_lower_case host (path ++ (codes ".git" ++ s))
    ∙ ap (λ t. to_lower_case (strip_slash t))
        (ap (λ t. strip_git (web_url host t))
            (trim_end-++ path b'.' (codes "git" ++ s) refl ∙ ap (λ t. path ++ (b'.' ∷ t)) kept)
          ∙ ap strip_git (sym (append_assoc (https ++ host) (b'/' ∷ path) (codes ".git" ++ s)))
          ∙ strip_git-suffix (web_url host path) s suffix
          ∙ sym plain)
    ∙ ap (λ t. to_lower_case (strip_slash (strip_git (web_url host t)))) (sym trimmed)
    ∙ sym (normal_web to_lower_case host path)

-- Let a host be non-empty and without a colon, a user non-empty and without `@` and `/`, and a path
-- without white space at its end, such that `https://host/path` does not end in `.git` or `.git/`.
-- Then, whatever the conversion to lower case, the addresses `git@host:path.git`,
-- `ssh://user@host/path.git` and `https://host/path.git/` have the normal form of
-- `https://host/path`.
pub spellings_agree :
    (to_lower_case : List ℕ → List ℕ) (x : ℕ) (host : List ℕ) (y : ℕ) (user path : List ℕ)
    → any is_colon (x ∷ host) ≡ false
    → any ends_user (y ∷ user) ≡ false
    → trim_end path ≡ path
    → strip_git (web_url (x ∷ host) path) ≡ web_url (x ∷ host) path
    → (normalize_repository_url to_lower_case
          (codes "git@" ++ (x ∷ host) ++ (b':' ∷ path ++ codes ".git"))
        ≡ normalize_repository_url to_lower_case (web_url (x ∷ host) path))
      × (normalize_repository_url to_lower_case
            (codes "ssh://" ++ (y ∷ user) ++ (b'@' ∷ (x ∷ host) ++ (b'/' ∷ path ++ codes ".git")))
          ≡ normalize_repository_url to_lower_case (web_url (x ∷ host) path))
      × (normalize_repository_url to_lower_case (web_url (x ∷ host) (path ++ codes ".git/"))
          ≡ normalize_repository_url to_lower_case (web_url (x ∷ host) path))
unfolding trim_end is_space is_git_suffix
spellings_agree to_lower_case x host y user path colon at trimmed plain = (
  normal_scp to_lower_case x host (path ++ codes ".git") colon
      ∙ normal_git to_lower_case (x ∷ host) path [] refl refl trimmed plain,
  normal_ssh to_lower_case y user (x ∷ host) (path ++ codes ".git") at
      ∙ normal_git to_lower_case (x ∷ host) path [] refl refl trimmed plain,
  normal_git to_lower_case (x ∷ host) path (b'/' ∷ []) refl refl trimmed plain,
)
