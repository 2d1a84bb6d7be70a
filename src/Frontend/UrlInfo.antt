-- ===== src/Frontend/UrlInfo.antt =====
-- internal/frontend/urlinfo/urlinfo.go: what a URL path asks for. A `UserError` (status 400) is
-- `none`. `module.CheckImportPath` is a parameter: whether its error is nil.
pub mod Parse
use pkgsite.Prelude.{
  Bool, true, false, not, ◌&&◌, ◌||◌, List, [], ◌∷◌, ◌++◌, Text, Option, none, some, codes, text_eq,
  is_empty, trim_prefix, trim_suffix, cut, split, join, length, leb, ltb, if◌then◌else◌,
}
use pkgsite.Paths.{unknown_module_path, default_branch, vcs_host_with_three_element_repo_name}
use pkgsite.Semver.{Semver}
use pkgsite.Stdlib
use pkgsite.Stdlib.{contains, supported_branch, version_for_tag}
use pkgsite.Version.{latest, master}

pub record UrlPathInfo : Type 0 where
  pub full_path : Text
  pub module_path : Text
  pub requested_version : Text

-- `fetch.LocalVersion`.
abbrev pub local_version : Text
local_version = codes "v0.0.0"

-- `strings.TrimSuffix(strings.TrimPrefix(p, "/"), "/")`.
unfoldable pub trim_slashes : Text → Text
unfolding trim_prefix trim_suffix
trim_slashes p = trim_suffix (trim_prefix p (codes "/")) (codes "/")

abbrev pub first_part : List Text → Text
first_part [] = []
first_part (p ∷ ps) = p

abbrev pub second_part : List Text → Text
second_part [] = []
second_part (p ∷ ps) = first_part ps

abbrev pub rest_parts : List Text → List Text
rest_parts [] = []
rest_parts (p ∷ ps) = ps

module _ (check_import_path : Text → Bool) where
  unfoldable pub is_valid_path : Text → Bool
  unfolding split text_eq vcs_host_with_three_element_repo_name
  is_valid_path full_path =
      let parts = split full_path b'/' in
      if not (check_import_path full_path)
      then false
      else if text_eq (first_part parts) (codes "golang.org")
      then (if ltb (length parts) 2
          then false
          else if text_eq (second_part parts) (codes "dl")
          then true
          else if text_eq (second_part parts) (codes "x")
          then leb 3 (length parts)
          else false)
      else if vcs_host_with_three_element_repo_name (first_part parts) && ltb (length parts) 3
      then false
      else true

  -- The end of both parsers: the path is checked.
  unfoldable pub checked : UrlPathInfo → Option UrlPathInfo
  unfolding is_valid_path
  checked info = if not (is_valid_path info.full_path) then none else some info

  unfoldable pub parse_details_url_path : Text → Option UrlPathInfo
  unfolding cut trim_slashes split join checked text_eq
  parse_details_url_path url_path =
      let c = cut url_path b'@' in
      let base = trim_slashes c.0 in
      let end_parts = split c.1 b'/' in
      let version = first_part end_parts in
      let suffix = join (rest_parts end_parts) (codes "/") in
      if not c.2
      then checked (record {
        full_path = base;
        module_path = unknown_module_path;
        requested_version = latest;
      })
      else if text_eq version latest
      then none
      else if is_empty suffix
      then checked (record {
        full_path = base;
        module_path = unknown_module_path;
        requested_version = version;
      })
      else checked (record {
        full_path = base ++ (codes "/" ++ suffix);
        module_path = base;
        requested_version = version;
      })

  unfoldable pub parse_stdlib_url_path : Text → Option UrlPathInfo
  unfolding cut trim_slashes is_valid_path trim_suffix version_for_tag text_eq
  parse_stdlib_url_path url_path =
      let c = cut url_path b'@' in
      let full_path = trim_slashes c.0 in
      let tag = trim_suffix c.1 (codes "/") in
      let version = version_for_tag tag in
      if not (is_valid_path full_path)
      then none
      else if not c.2
      then some (record {
        full_path = full_path;
        module_path = Stdlib.module_path;
        requested_version = latest;
      })
      else if not (is_empty version)
      then some (record {
        full_path = full_path;
        module_path = Stdlib.module_path;
        requested_version = version;
      })
      else if text_eq tag local_version
      then some (record {
        full_path = full_path;
        module_path = Stdlib.module_path;
        requested_version = local_version;
      })
      else none

  unfoldable pub extract_url_path_info : Text → Option UrlPathInfo
  unfolding cut trim_prefix contains parse_details_url_path parse_stdlib_url_path
  extract_url_path_info url_path =
      if contains (cut (trim_prefix url_path (codes "/")) b'@').0
      then parse_stdlib_url_path url_path
      else parse_details_url_path url_path

unfoldable pub is_supported_version : Semver → Text → Text → Bool
unfolding contains supported_branch default_branch text_eq
is_supported_version semver full_path requested =
    if contains full_path && supported_branch requested
    then true
    else if default_branch requested
    then not (contains full_path) || text_eq requested master
    else text_eq requested latest || semver.is_valid requested
