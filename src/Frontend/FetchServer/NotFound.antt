-- ===== src/Frontend/FetchServer/NotFound.antt =====
-- internal/frontend/fetchserver/404.go: the page for a path that was not found. Errors are logged,
-- which is left out; cookies and the texts of error pages too.
mod GithubPath
pub mod Redirects
unfoldable pub use GithubPath.*
use pkgsite.Prelude.{
  ℕ, suc, ◌-◌, Bool, true, false, not, ◌||◌, ◌&&◌, List, [], ◌∷◌, Text, Option, none, some, ◌⊎◌,
  inl, inr, text_eq, is_empty, ltb, leb, ◌==◌, if◌then◌else◌,
}
use pkgsite.Derrors.{
  Error, root, identity, is_error, to_status, not_found, alternative_module, bad_module,
  has_incomplete_packages,
}
use pkgsite.Frontend.FetchServer.{
  FetchResult, DbError, recorded, path_does_not_exist_in_module, Response, empty, VersionMap,
  fetch_result_from_version_map,
}
use pkgsite.Frontend.FetchServer.Verdict.{
  Site, result_from_fetch_request, module_paths_to_fetch, display_path,
}
use pkgsite.Frontend.UrlInfo.{is_supported_version}
use pkgsite.Stdlib
use pkgsite.Stdlib.{contains}
use pkgsite.Version.{latest}

-- What `GetLatestMajorPathForV1Path` returns.
pub record MajorPath : Type 0 where
  pub path : Text
  pub major : ℕ
  pub err : Option Error

-- The database's answers, and the time, which counts from Go's zero time.
pub record Db : Type 0 where
  pub stdlib_paths : Text → List Text ⊎ DbError
  pub version_map : Text → Text → VersionMap ⊎ DbError
  pub major_path : Text → MajorPath
  pub version_maps : List Text → Text → List VersionMap ⊎ DbError
  pub nested_modules : Text → ℕ ⊎ DbError
  pub now : ℕ

-- `unit` is `versions.ConstructUnitURL(path, modulePath, version)`, `shortcut` "/" and the path,
-- `search` the search for it.
pub data Target : Type 0 where
  unit : Text → Text → Text → Target
  shortcut search : Text → Target

-- A redirection, the page that offers to fetch a path, or an error page.
pub data Page : Type 0 where
  redirect : Target → Page
  fetch : Text → Page
  error_page : ℕ → Response → Page

abbrev pub result_of_row : VersionMap → FetchResult
result_of_row vm = record {
  module_path = vm.module_path;
  go_mod_path = vm.go_mod_path;
  status = vm.status;
  err = some (recorded vm.error);
  response = empty;
  updated_at = 0;
  resolved_version = if leb 200 vm.status && ltb vm.status 300 then vm.resolved_version else [];
}

-- `err != nil && err != derrors.NotFound`.
abbrev pub is_other_than_not_found : Option Error → Bool
is_other_than_not_found none = false
is_other_than_not_found (some (root s)) = not (identity s == identity not_found)
is_other_than_not_found (some _) = true

-- A candidate's row as a result.
unfoldable pub candidate_result : VersionMap → FetchResult
unfolding fetch_result_from_version_map
candidate_result vm =
    let fr = fetch_result_from_version_map vm in
    if (vm.status == 200) || (vm.status == 290)
    then record fr { err = some path_does_not_exist_in_module }
    else fr

module _ (site : Site) (db : Db) where
  unfoldable pub candidate_results : List VersionMap → List FetchResult
  unfolding candidate_result
  candidate_results [] = []
  candidate_results (vm ∷ vms) = candidate_result vm ∷ candidate_results vms

  -- `previousFetchStatusAndResponse` from the look at a higher major version on. An error is
  -- `none`.
  unfoldable pub after_longest : Text → Text → List Text → Option FetchResult
  unfolding text_eq identity candidate_results result_from_fetch_request
  after_longest full_path requested paths =
      let major = db.major_path full_path in
      if is_other_than_not_found major.err
      then none
      else if not (text_eq major.path full_path)
          && not (major.major == 1)
          && not (is_empty major.path)
      then some (record {
        module_path = major.path;
        go_mod_path = major.path;
        status = 302;
        err = none;
        response = empty;
        updated_at = 0;
        resolved_version = [];
      })
      else elim (db.version_maps paths requested) [
        | inr e ↦ none
        | inl vms ↦
            result_from_fetch_request site.check_path site.renders full_path requested
              (candidate_results vms)
      ]

  -- The rest of it, on the row of the longest path. A row with a status from 200 to 299 comes
  -- first.
  unfoldable pub previous_of_row : Text → Text → List Text → VersionMap → Option FetchResult
  unfolding after_longest to_status result_from_fetch_request
  previous_of_row full_path requested paths vm =
      let fr = result_of_row vm in
      if leb 200 vm.status && ltb vm.status 300
      then some fr
      else if leb 500 vm.status
          || (vm.status == to_status (some (root alternative_module)))
          || (vm.status == to_status (some (root bad_module)))
      then result_from_fetch_request site.check_path site.renders full_path requested (fr ∷ [])
      else after_longest full_path requested paths

  unfoldable pub previous_fetch_status_and_response : Text → Text → Text → Option FetchResult
  unfolding module_paths_to_fetch previous_of_row
  previous_fetch_status_and_response full_path module_path requested =
      elim (module_paths_to_fetch site full_path module_path) [
        | none ↦ none
        | some (inr status) ↦ none
        | some (inl paths) ↦ elim (db.version_map (first_of paths) requested) [
          | inr e ↦ none
          | inl vm ↦ previous_of_row full_path requested paths vm
        ]
      ]

  unfoldable pub path_not_found_error : Text → Text → Page
  unfolding is_supported_version contains display_path
  path_not_found_error full_path requested =
      if not (is_supported_version site.semver full_path requested)
      then error_page 400 empty
      else if contains full_path
      then (if site.std_fetch then fetch Stdlib.module_path else error_page 404 empty)
      else fetch (display_path full_path requested)

  -- `stdlibPathForShortcut`; with an error the path is "" too.
  unfoldable pub stdlib_path_for_shortcut : Text → Text
  unfolding contains
  stdlib_path_for_shortcut path =
      if not (contains path)
      then []
      else elim (db.stdlib_paths path) [ inl (match ∷ []) ↦ match | _ ↦ [] ]

  abbrev pub std_page : Text → Page
  unfolding stdlib_path_for_shortcut
  std_page full_path =
      let path = stdlib_path_for_shortcut full_path in
      if not (is_empty path)
      then redirect (shortcut path)
      else if site.std_fetch
      then fetch Stdlib.module_path
      else error_page 404 empty

  -- `(err != nil && !errors.Is(err, derrors.NotFound)) || (vm != nil && vm.Status != 200)`: vm is nil
  -- when there is an error.
  abbrev pub keeps_from_canonical : VersionMap ⊎ DbError → Bool
  unfolding is_error
  keeps_from_canonical (inr e) = not (is_error e.error not_found)
  keeps_from_canonical (inl vm) = not (vm.status == 200)

  -- The default case of the switch.
  unfoldable pub other_page : Text → Text → FetchResult → Page
  unfolding github_path_redirect path_not_found_error
  other_page full_path requested fr =
      let failed = error_page fr.status fr.response in
      elim (github_path_redirect full_path) [
        | some p ↦ redirect (unit p p latest)
        | none ↦
            if (fr.status == 404) && ltb site.interval (db.now - fr.updated_at)
            then path_not_found_error full_path requested
            else elim (db.nested_modules full_path) [
              | inl (suc n) ↦ redirect (search full_path)
              | _ ↦ failed
            ]
      ]

  -- The switch on the status of the previous fetch.
  unfoldable pub page_of : Text → Text → FetchResult → Page
  unfolding to_status path_not_found_error text_eq other_page
  page_of full_path requested fr =
      if (fr.status == 200) || (fr.status == to_status (some (root has_incomplete_packages)))
      then (if not (text_eq fr.resolved_version requested)
          then redirect (unit full_path fr.go_mod_path fr.resolved_version)
          else path_not_found_error full_path requested)
      else if (fr.status == 302) || (fr.status == to_status (some (root alternative_module)))
      then (if text_eq fr.go_mod_path full_path
          then error_page 404 empty
          else if keeps_from_canonical (db.version_map fr.go_mod_path latest)
          then error_page 404 empty
          else redirect (unit fr.go_mod_path fr.go_mod_path latest))
      else if fr.status == 500
      then path_not_found_error full_path requested
      else other_page full_path requested fr

  unfoldable pub serve_path_not_found_page : Text → Text → Text → Page
  unfolding contains previous_fetch_status_and_response path_not_found_error page_of
  serve_path_not_found_page full_path module_path requested =
      if contains full_path
      then std_page full_path
      else elim (previous_fetch_status_and_response full_path module_path requested) [
        | none ↦ path_not_found_error full_path requested
        | some fr ↦ page_of full_path requested fr
      ]
