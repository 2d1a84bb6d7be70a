-- ===== src/Source.antt =====
-- internal/source/source.go: where the source of a module is, and the URLs that refer to it. What
-- needs a request is not here.
pub mod Expand
pub mod Stored
pub mod Sites
pub mod Found
pub mod Dynamic
pub mod Meta
use pkgsite.Prelude.Int.{ℤ, pos, ltb_ℤ}
use pkgsite.Prelude.{
  ℕ, zero, suc, Bool, true, false, not, ◌||◌, List, [], ◌∷◌, ◌++◌, Text, Option, none, some, codes,
  text_eq, is_empty, has_prefix, has_suffix, trim_prefix, trim_suffix, drop, length, if◌then◌else◌,
  ◌==◌,
}
use pkgsite.Paths.Candidates.Dir.{dir_part}
use pkgsite.Fetch.Files.{join_path}
use pkgsite.Version.{is_pseudo}

pub record UrlTemplates : Type 0 where
  pub repo : Text
  pub directory : Text
  pub file : Text
  pub line : Text
  pub raw : Text

pub record Info : Type 0 where
  pub repo_url : Text
  pub module_dir : Text
  pub commit : Text
  pub templates : UrlTemplates

-- The first key that stands in braces at the front of a text, with its value.
unfoldable pub key_at : List (Text × Text) → Text → Option (Text × Text)
unfolding has_prefix
key_at [] s = none
key_at ((k, v) ∷ m) s =
    let rest = key_at m s in if has_prefix s (b'{' ∷ (k ++ b'}' ∷ [])) then some (k, v) else rest

-- The replacer's pass over a text, of whose front the given number of bytes has been replaced.
unfoldable pub expand_from : Text → List (Text × Text) → ℕ → Text
unfolding key_at
expand_from [] m n = []
expand_from (c ∷ s) m (suc n) = expand_from s m n
expand_from (c ∷ s) m zero = elim (key_at m (c ∷ s)) [
  | some p ↦ p.1 ++ expand_from s m (suc (length p.0))
  | none ↦ c ∷ expand_from s m zero
]

unfoldable pub expand : Text → List (Text × Text) → Text
unfolding expand_from
expand s m = expand_from s m 0

-- `path.Split`'s second result.
abbrev pub base_part : Text → Text
base_part p = drop (length (dir_part p)) p

abbrev pub https : Text
https = codes "https://"

abbrev pub go_source_repo_url : Text
go_source_repo_url = codes "https://cs.opensource.google/go/go"

unfoldable pub repo_link : Option Info → Text
unfolding expand
repo_link none = []
repo_link (some i) =
    if is_empty i.templates.repo
    then i.repo_url
    else expand i.templates.repo ((codes "repo", i.repo_url) ∷ [])

unfoldable pub directory_url : Option Info → Text → Text
unfolding expand join_path trim_prefix trim_suffix
directory_url none dir = []
directory_url (some i) dir =
    trim_suffix
      (expand i.templates.directory (
        (codes "repo", i.repo_url)
        ∷ (codes "importPath", join_path (trim_prefix i.repo_url https) dir)
        ∷ (codes "commit", i.commit)
        ∷ (codes "dir", join_path i.module_dir dir)
        ∷ []))
      (codes "/")

abbrev pub module_url : Option Info → Text
module_url i = directory_url i []

unfoldable pub file_url : Option Info → Text → Text
unfolding expand join_path trim_prefix dir_part
file_url none pathname = []
file_url (some i) pathname = expand i.templates.file (
    (codes "repo", i.repo_url)
    ∷ (codes "importPath", join_path (trim_prefix i.repo_url https) (dir_part pathname))
    ∷ (codes "commit", i.commit)
    ∷ (codes "dir", dir_part pathname)
    ∷ (codes "file", join_path i.module_dir pathname)
    ∷ (codes "base", base_part pathname)
    ∷ [])

unfoldable pub raw_url : Option Info → Text → Text
unfolding expand join_path text_eq
raw_url none pathname = []
raw_url (some i) pathname =
    if is_empty i.templates.raw
    then []
    else let module_dir = if text_eq i.repo_url go_source_repo_url then [] else i.module_dir in
      expand i.templates.raw (
        (codes "repo", i.repo_url)
        ∷ (codes "commit", i.commit)
        ∷ (codes "file", join_path module_dir pathname)
        ∷ [])

-- `strconv.Itoa` and `strconv.Atoi`.
module _ (itoa : ℤ → Text) where
  unfoldable pub line_url : Option Info → Text → ℤ → Text
  unfolding expand join_path trim_prefix dir_part
  line_url none pathname n = []
  line_url (some i) pathname n = expand i.templates.line (
      (codes "repo", i.repo_url)
      ∷ (codes "importPath", join_path (trim_prefix i.repo_url https) (dir_part pathname))
      ∷ (codes "commit", i.commit)
      ∷ (codes "file", join_path i.module_dir pathname)
      ∷ (codes "dir", dir_part pathname)
      ∷ (codes "base", base_part pathname)
      ∷ (codes "line", itoa n)
      ∷ [])

unfoldable pub remove_http_scheme : Text → Text
unfolding has_prefix
remove_http_scheme url =
    if has_prefix url https
    then drop 8 url
    else if has_prefix url (codes "http://")
    then drop 7 url
    else url

unfoldable pub trim_vcs_suffix : Text → Text
unfolding has_prefix has_suffix trim_suffix
trim_vcs_suffix repo_url =
    if not (has_suffix repo_url (codes ".git"))
    then repo_url
    else if has_prefix repo_url (codes "https://github.com/")
        || has_prefix repo_url (codes "https://gitlab.com/")
    then trim_suffix repo_url (codes ".git")
    else repo_url

abbrev pub has_dash : Text → Bool
has_dash [] = false
has_dash (d ∷ t) = (d == b'-') || has_dash t

-- What follows the last dash.
unfoldable pub after_last_dash : Text → Text
after_last_dash [] = []
after_last_dash (c ∷ s) =
    let rest = after_last_dash s in if has_dash s then rest else if c == b'-' then s else c ∷ s

module _ (atoi : Text → Option ℤ) where
  unfoldable pub remove_version_suffix : Text → Text
  unfolding dir_part has_prefix trim_suffix
  remove_version_suffix s =
      if not (has_prefix (base_part s) (codes "v")) then s else elim (atoi (drop 1 (base_part s))) [
        | none ↦ s
        | some n ↦ if ltb_ℤ n (pos 2) then s else trim_suffix (dir_part s) (codes "/")
      ]

  -- The commit of a version, and whether it is a hash.
  unfoldable pub commit_from_version : Text → Text → Text × Bool
  unfolding trim_suffix is_pseudo after_last_dash remove_version_suffix
  commit_from_version vers relative_module_path =
      let v = trim_suffix vers (codes "+incompatible") in
      let prefix = remove_version_suffix relative_module_path in
      if is_pseudo v
      then (after_last_dash v, true)
      else if not (is_empty prefix)
      then (prefix ++ b'/' ∷ v, false)
      else (v, false)

  -- `has_url` is whether a HEAD request for a URL answers with the status 200.
  unfoldable pub adjust_versioned_module_directory : (Text → Bool) → Info → Info
  unfolding remove_version_suffix text_eq file_url
  adjust_versioned_module_directory has_url info =
      let without = remove_version_suffix info.module_dir in
      if text_eq info.module_dir without
      then info
      else if has_url (file_url (some info) (codes "go.mod"))
      then info
      else record info { module_dir = without }
