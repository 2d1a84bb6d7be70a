-- ===== src/Paths/Candidates.antt =====
-- `CandidateModulePaths` of internal/paths.go, with `path.Dir` and `path.Clean` of the language's
-- library. The functions of golang.org/x/mod/module are parameters: whether their error is nil.
pub mod Dir
pub mod Terminates
pub mod Rootless
use pkgsite.Prelude.{
  ℕ, zero, suc, ◌-◌, Bool, not, ◌||◌, List, [], ◌∷◌, Text, Option, none, some, codes, text_eq,
  length, take, ltb, ◌==◌, if◌then◌else◌,
}
use pkgsite.Paths.{vcs_host_with_three_element_repo_name}
use pkgsite.Paths.Candidates.Dir.{dir}
use pkgsite.Stdlib.{contains}

-- `p != "." && p != "/"` does not hold.
abbrev pub is_end : Text → Bool
is_end p = text_eq p (codes ".") || text_eq p (codes "/")

-- `r[len(r)-1]`, of a slice that is not empty.
abbrev pub last : List Text → Text
last [] = []
last (p ∷ []) = p
last (p ∷ q ∷ r) = last (q ∷ r)

-- The end of the function; `[]` is nil.
unfoldable pub without_hosts : List Text → List Text
unfolding vcs_host_with_three_element_repo_name
without_hosts r =
    if length r == 0
    then []
    else if not (vcs_host_with_three_element_repo_name (last r))
    then r
    else if ltb (length r) 3
    then []
    else take (length r - 2) r

module _ (check_path : Text → Bool) where
  -- The loop from p on: `none` is a fuel that runs out.
  unfoldable pub ancestors : ℕ → Text → Option (List Text)
  unfolding dir text_eq
  ancestors zero p = if is_end p then some [] else none
  ancestors (suc fuel) p =
      let rest = ancestors fuel (dir p) in
      if is_end p
      then some []
      else if check_path p
      then elim rest [ none ↦ none | some r ↦ some (p ∷ r) ]
      else rest

  unfoldable pub candidate_module_paths : (Text → Bool) → Text → Option (List Text)
  unfolding contains ancestors without_hosts
  candidate_module_paths check_import_path full_path =
      if contains full_path
      then some (if check_import_path full_path then codes "std" ∷ [] else [])
      else elim (ancestors (suc (length full_path)) full_path) [
        | none ↦ none
        | some r ↦ some (without_hosts r)
      ]
