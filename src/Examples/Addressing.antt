-- ===== src/Examples/Addressing.antt =====
-- The addresses of a repository in several spellings.
use georesearch_dsh.Prelude.{any, ℕ, ◌≡◌, refl, List, ◌∷◌, ◌++◌}
use georesearch_dsh.Service.Remote.{
  codes, trim_end, is_space, span, replace_scp, replace_ssh, drop_user, is_git_suffix, strip_git,
  strip_slash, trim_start, normalize_repository_url,
}
use georesearch_dsh.Service.Spellings.{web_url, spellings_agree}

abbrev lower : List ℕ → List ℕ
lower s = s

abbrev host : List ℕ
host = codes "example.org"

abbrev path : List ℕ
path = codes "group/maps"

upper_case_is_read :
    normalize_repository_url lower (codes " GIT@example.org:group/maps.Git/ ")
    ≡ codes "https://example.org/group/maps"
unfolding normalize_repository_url trim_end trim_start is_space replace_scp replace_ssh span
    is_git_suffix strip_git strip_slash
upper_case_is_read = refl

no_user_is_read :
    normalize_repository_url lower (codes "ſſh://example.org/group@maps/")
    ≡ codes "https://example.org/group@maps"
unfolding normalize_repository_url trim_end trim_start is_space replace_scp replace_ssh span
    drop_user is_git_suffix strip_git strip_slash
no_user_is_read = refl

spellings_agree_example :
    (normalize_repository_url lower (codes "git@" ++ host ++ (b':' ∷ path ++ codes ".git"))
      ≡ normalize_repository_url lower (web_url host path))
    × (normalize_repository_url lower
          (codes "ssh://" ++ codes "me" ++ (b'@' ∷ host ++ (b'/' ∷ path ++ codes ".git")))
        ≡ normalize_repository_url lower (web_url host path))
    × (normalize_repository_url lower (web_url host (path ++ codes ".git/"))
        ≡ normalize_repository_url lower (web_url host path))
unfolding trim_end is_space is_git_suffix strip_git any
spellings_agree_example =
    spellings_agree lower b'e' (codes "xample.org") b'm' (codes "e") path refl refl refl refl
