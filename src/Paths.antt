-- ===== src/Paths.antt =====
-- internal/paths.go and the path functions of internal/discovery.go. The functions of
-- golang.org/x/mod/module are parameters.
pub mod Parse
pub mod Candidates
use pkgsite.Prelude.Int.{ℤ, pos}
use pkgsite.Prelude.{
  is_empty, drop, not, ◌==◌, if◌then◌else◌, Bool, ◌||◌, [], ◌∷◌, ◌++◌, Text, Option, none, some,
  codes, text_eq, trim_prefix, split,
}
use pkgsite.Stdlib.{mem_text}

abbrev pub unknown_module_path : Text
unknown_module_path = codes "unknownModulePath"

abbrev pub main_version : Text
main_version = codes "main"

abbrev pub master_version : Text
master_version = codes "master"

-- `DefaultBranches[v]`.
unfoldable pub default_branch : Text → Bool
unfolding text_eq
default_branch v = text_eq v main_version || text_eq v master_version

unfoldable pub vcs_host_with_three_element_repo_name : Text → Bool
unfolding mem_text
vcs_host_with_three_element_repo_name hostname = mem_text hostname (
    codes "git.sr.ht"
    ∷ codes "gitea.com"
    ∷ codes "gitee.com"
    ∷ codes "gitlab.com"
    ∷ codes "hg.sr.ht"
    ∷ codes "bitbucket.org"
    ∷ codes "github.com"
    ∷ codes "golang.org"
    ∷ codes "launchpad.net"
    ∷ [])

unfoldable pub suffix : Text → Text → Text
unfolding trim_prefix
suffix full_path base_path = trim_prefix (trim_prefix full_path base_path) (codes "/")

-- A module path with a version, `internal.Modver`.
pub record Modver : Type 0 where
  pub path : Text
  pub version : Text

unfoldable pub show_modver : Modver → Text
show_modver mv = mv.path ++ (codes "@" ++ mv.version)

unfoldable pub parse_modver : Text → Option Modver
unfolding split
parse_modver s = elim (split s b'@') [
  | [] ↦ none
  | p ∷ [] ↦ none
  | p ∷ v ∷ [] ↦ some (record { path = p; version = v })
  | p ∷ v ∷ w ∷ ps ↦ none
]

-- What the functions of golang.org/x/mod/module and strconv say of a path: `SplitPathVersion` (the
-- prefix, the version and whether the path is valid) and `Atoi` (none for an error).
module _ (split_path_version : Text → Text × Text × Bool) (atoi : Text → Option ℤ) where
  unfoldable pub series_path_for_module : Text → Text
  series_path_for_module module_path = (split_path_version module_path).0

  -- `strings.TrimLeft(v, "/.")`.
  unfoldable pub trim_left_slash_dot : Text → Text
  trim_left_slash_dot [] = []
  trim_left_slash_dot (c ∷ s) =
      let rest = trim_left_slash_dot s in if (c == b'/') || (c == b'.') then rest else c ∷ s

  unfoldable pub major_version_for_module : Text → Text
  unfolding trim_left_slash_dot
  major_version_for_module module_path = trim_left_slash_dot (split_path_version module_path).1

  -- A slice from 2 on of a shorter text would panic; a version that is not empty begins with two
  -- bytes.
  unfoldable pub series_path_and_major_version : Text → Text × ℤ
  series_path_and_major_version module_path =
      let split = split_path_version module_path in
      if not split.2
      then ([], pos 0)
      else if is_empty split.1
      then (split.0, pos 1)
      else elim (atoi (drop 2 split.1)) [ none ↦ ([], pos 0) | some n ↦ (split.0, n) ]
