-- ===== src/Source/Found.antt =====
-- `ModuleInfo` of internal/source/source.go: from a module's path and version to its source. The
-- regular expressions of the known sites, requests and the tags of a page are parameters.
use pkgsite.Prelude.Int.{ℤ}
use pkgsite.Prelude.{
  Bool, true, false, not, List, [], ◌∷◌, ◌++◌, Text, Option, none, some, codes, has_prefix,
  trim_prefix, split, take, drop, length, ltb, if◌then◌else◌, is_empty,
}
use pkgsite.Derrors.{Error, wrap}
use pkgsite.Stdlib.{mem_text}
use pkgsite.Version.{is_pseudo}
use pkgsite.Worker.Fetch.Env.{Answer, ok, err}
use pkgsite.Source.{
  UrlTemplates, Info, https, trim_vcs_suffix, commit_from_version,
  adjust_versioned_module_directory,
}
use pkgsite.Source.Sites.{csopensource_templates, new_github_info}

abbrev pub TransformCommit : Type 0
TransformCommit = Option (Text → Bool → Text)

abbrev pub gitea_transform_commit : Text → Bool → Text
gitea_transform_commit commit is_hash =
    if is_hash then codes "commit/" ++ commit else codes "tag/" ++ commit

abbrev pub fdio_transform_commit : Text → Bool → Text
fdio_transform_commit commit is_hash =
    (if is_hash then codes "id" else codes "h") ++ (codes "=" ++ commit)

-- A known site. `find` gives the match of its regular expression, and the group named repo.
pub record Pattern : Type 0 where
  pub find : Text → Option (Text × Text)
  pub templates : UrlTemplates
  pub transform_commit : TransformCommit

pub record Match : Type 0 where
  pub repo : Text
  pub relative_module_path : Text
  pub templates : UrlTemplates
  pub transform_commit : TransformCommit

-- `strings.Replace` of the first occurrence.
unfoldable pub replace_first : Text → Text → Text → Text
unfolding has_prefix
replace_first [] old new = if is_empty old then new else []
replace_first (c ∷ s) old new =
    let rest = replace_first s old new in
    if has_prefix (c ∷ s) old then new ++ drop (length old) (c ∷ s) else c ∷ rest

abbrev pub apache_domain : Text
apache_domain = codes "git.apache.org/"

unfoldable pub repo_of_match : Text → Text
unfolding replace_first has_prefix
repo_of_match repo =
    let moved =
      if has_prefix repo apache_domain
      then replace_first repo apache_domain (codes "github.com/apache/")
      else repo in
    if has_prefix moved (codes "blitiri.com.ar/")
    then replace_first moved (codes "/go/") (codes "/git/r/")
    else moved

unfoldable pub match_static : List Pattern → Text → Option Match
unfolding repo_of_match trim_prefix
match_static [] path = none
match_static (pat ∷ pats) path = elim (pat.find path) [
  | none ↦ match_static pats path
  | some g ↦ some (record {
    repo = repo_of_match g.1;
    relative_module_path = trim_prefix (trim_prefix path g.0) (codes "/");
    templates = pat.templates;
    transform_commit = pat.transform_commit;
  })
]

abbrev pub cs_non_x_repos : List Text
cs_non_x_repos = codes "dl" ∷ codes "proposal" ∷ codes "vscode-go" ∷ []

abbrev pub cs_x_repos : List Text
cs_x_repos =
    codes "x/arch"
    ∷ codes "x/benchmarks"
    ∷ codes "x/blog"
    ∷ codes "x/build"
    ∷ codes "x/crypto"
    ∷ codes "x/debug"
    ∷ codes "x/example"
    ∷ codes "x/exp"
    ∷ codes "x/image"
    ∷ codes "x/mobile"
    ∷ codes "x/mod"
    ∷ codes "x/net"
    ∷ codes "x/oauth2"
    ∷ codes "x/perf"
    ∷ codes "x/pkgsite"
    ∷ codes "x/playground"
    ∷ codes "x/review"
    ∷ codes "x/sync"
    ∷ codes "x/sys"
    ∷ codes "x/talks"
    ∷ codes "x/term"
    ∷ codes "x/text"
    ∷ codes "x/time"
    ∷ codes "x/tools"
    ∷ codes "x/tour"
    ∷ codes "x/vgo"
    ∷ codes "x/website"
    ∷ codes "x/xerrors"
    ∷ []

-- The first two elements of a path.
unfoldable pub repo_suffix : Text → Text
unfolding split
repo_suffix suffix = elim (split suffix b'/') [
  | [] ↦ suffix
  | p ∷ (rest → r) ↦ elim rest [ [] ↦ suffix | q ∷ (more → s) ↦ p ++ b'/' ∷ q ]
]

unfoldable pub is_cs_repo : Text → Bool
unfolding has_prefix mem_text
is_cs_repo suffix =
    if has_prefix suffix (codes "x/")
    then mem_text suffix cs_x_repos
    else mem_text suffix cs_non_x_repos

-- `none` stands for a panic: a hash of a commit that is shorter than eight bytes.
unfoldable pub adjust_go_repo_info : Info → Text → Bool → Option Info
unfolding repo_suffix is_cs_repo trim_prefix
adjust_go_repo_info info module_path is_hash =
    let suffix = repo_suffix (trim_prefix module_path (codes "golang.org/")) in
    let moved = record info {
      repo_url = codes "https://cs.opensource.google/go/" ++ suffix;
      templates = record csopensource_templates {
        raw =
            codes "https://github.com/golang/"
            ++ (trim_prefix suffix (codes "x/") ++ codes "/raw/{commit}/{file}");
      };
    } in
    if not (is_cs_repo suffix)
    then some info
    else if not is_hash
    then some moved
    else if ltb (length info.commit) 8
    then none
    else some (record moved { commit = take 8 info.commit })

-- How `ModuleInfo` ends; a panic has no `Info`.
pub data Located : Type 0 where
  located : Option Info → Located
  failed : Error → Located
  panicked : Located

abbrev pub transformed : TransformCommit → Text × Bool → Text
transformed none c = c.0
transformed (some f) c = f c.0 c.1

module _ (atoi : Text → Option ℤ) (patterns : List Pattern) (has_url : Text → Bool) where
  -- What a match makes of a version.
  unfoldable pub info_of_match : Match → Text → Info
  unfolding commit_from_version trim_vcs_suffix
  info_of_match found v = record {
    repo_url = trim_vcs_suffix (https ++ found.repo);
    module_dir = found.relative_module_path;
    commit =
        transformed found.transform_commit (commit_from_version atoi v found.relative_module_path);
    templates = found.templates;
  }

  -- The Go project's own modules are moved; an info that there is not cannot be.
  unfoldable pub finish_info : Text → Text → Option Info → Located
  unfolding adjust_versioned_module_directory adjust_go_repo_info is_pseudo has_prefix
  finish_info module_path v none =
      if has_prefix module_path (codes "golang.org/")
      then elim (is_cs_repo (repo_suffix (trim_prefix module_path (codes "golang.org/")))) [
        | true ↦ panicked
        | false ↦ located none
      ]
      else located none
  finish_info module_path v (some info) =
      let adjusted = adjust_versioned_module_directory atoi has_url info in
      if has_prefix module_path (codes "golang.org/")
      then elim (adjust_go_repo_info adjusted module_path (is_pseudo v)) [
        | none ↦ panicked
        | some i ↦ located (some i)
      ]
      else located (some adjusted)

  -- `dynamic` is what moduleInfoDynamic answers: Source/Dynamic has it.
  unfoldable pub module_info : Answer (Option Info) → Text → Text → Located
  unfolding match_static info_of_match finish_info has_prefix
  module_info dynamic module_path v =
      if has_prefix module_path (codes "example.com/")
      then located (some (new_github_info (https ++ module_path) [] v))
      else elim (match_static patterns module_path) [
        | some found ↦ finish_info module_path v (some (info_of_match found v))
        | none ↦ elim dynamic [ err e ↦ failed (wrap e) | ok info ↦ finish_info module_path v info ]
      ]
