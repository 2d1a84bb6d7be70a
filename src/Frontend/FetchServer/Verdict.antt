-- ===== src/Frontend/FetchServer/Verdict.antt =====
-- `resultFromFetchRequest` and `fetchAndPoll` of internal/frontend/fetchserver/fetch.go.
use pkgsite.Prelude.{
  ℕ, ◌-◌, Bool, true, false, not, ◌&&◌, List, [], ◌∷◌, ◌++◌, Text, Option, none, some, codes,
  text_eq, ◌⊎◌, inl, inr, is_empty, length, drop, ltb, ◌==◌, if◌then◌else◌,
}
use pkgsite.Derrors.{root, is_error, to_status, not_found, alternative_module, bad_module}
use pkgsite.Frontend.FetchServer.{
  FetchResult, FetchError, path_does_not_exist_in_module, Response, oops, still_working,
  no_valid_module_path, not_a_valid_path, not_processed, no_packages, not_found_text, module_exists,
  status_text, says, DbError, Run, check_possible_module_paths,
}
use pkgsite.Frontend.UrlInfo.{is_supported_version, is_valid_path}
use pkgsite.Paths.{unknown_module_path}
use pkgsite.Paths.Candidates.{candidate_module_paths}
use pkgsite.Semver.{Semver}
use pkgsite.Stdlib
use pkgsite.Stdlib.{contains}
use pkgsite.Version.{latest}

-- `displayPath`.
unfoldable pub display_path : Text → Text → Text
unfolding text_eq
display_path path v = if text_eq v latest then path else path ++ (codes "@" ++ v)

abbrev pub shown : FetchResult → ℕ → Response → FetchResult
shown fr status response = record fr { status = status; response = response }

abbrev pub no_error : Option FetchError → Bool
no_error none = true
no_error (some e) = false

-- `errors.Is(fr.err, errPathDoesNotExistInModule)`.
abbrev pub lacks_path : Option FetchError → Bool
lacks_path (some path_does_not_exist_in_module) = true
lacks_path _ = false

-- `module.CheckPath` and the rendering of an HTML message: whether their errors are nil.
module _ (check_path : Text → Bool) (renders : Response → Bool) (full_path requested : Text) where
  -- One turn of the loop: `none` goes on, `some none` returns an error.
  unfoldable pub decide : FetchResult → Option (Option FetchResult)
  unfolding display_path to_status says
  decide fr =
      let alternative = to_status (some (root alternative_module)) in
      let bad = to_status (some (root bad_module)) in
      let path = display_path full_path requested in
      if (fr.status == 200) && no_error fr.err
      then some (some fr)
      else if fr.status == 408
      then some (some (shown fr 408 (still_working path)))
      else if fr.status == 500
      then some (some (shown fr 500 oops))
      else if fr.status == alternative
      then (if not (check_path fr.go_mod_path)
          then some (some (shown fr 404 (no_valid_module_path fr.go_mod_path)))
          else if renders (not_a_valid_path fr.go_mod_path)
          then some (some (shown fr fr.status (not_a_valid_path fr.go_mod_path)))
          else some none)
      else if fr.status == bad
      then some (
          some (
            shown fr 404 (
              if says fr.err (codes "module contains 0 packages")
              then no_packages path
              else not_processed path)))
      else none

  -- The loop: the first result that decides, or the module path found for a prefix, "" for none.
  unfoldable pub verdict_from : Text → List FetchResult → Option FetchResult ⊎ Text
  unfolding decide
  verdict_from prefix [] = inr prefix
  verdict_from prefix (fr ∷ frs) = elim (decide fr) [
    | some result ↦ inl result
    | none ↦
        verdict_from (if lacks_path fr.err && is_empty prefix then fr.module_path else prefix) frs
  ]

  -- After the loop, on `results[0]`.
  unfoldable pub without_decision : FetchResult → Text → Option FetchResult
  unfolding display_path
  without_decision fr prefix =
      let path = display_path full_path requested in
      let response = module_exists path (display_path prefix requested) in
      if is_empty prefix
      then some (shown fr 404 (not_found_text path))
      else if renders response
      then some (shown fr 404 response)
      else none

  unfoldable pub result_from_fetch_request : List FetchResult → Option FetchResult
  unfolding verdict_from without_decision
  result_from_fetch_request [] = none
  result_from_fetch_request (fr ∷ frs) = elim (verdict_from [] (fr ∷ frs)) [
    | inl result ↦ result
    | inr prefix ↦ without_decision fr prefix
  ]

-- What a request to fetch asks for.
pub record Request : Type 0 where
  pub full_path : Text
  pub module_path : Text
  pub requested_version : Text

-- The functions of golang.org/x/mod, the database's answer to `GetUnitMeta` (the unit's module
-- path), the experiment that lets the standard library be fetched, and the rendering of messages.
pub record Site : Type 0 where
  pub semver : Semver
  pub check_path : Text → Bool
  pub check_import_path : Text → Bool
  pub renders : Response → Bool
  pub std_fetch : Bool
  pub unit_module : Text → Text ⊎ DbError
  pub interval : ℕ

module _ (site : Site) where
  -- `candidateModulePaths` with `maxPathsToFetch` = 10: a status is that of an error, and `none` a
  -- loop that does not end.
  unfoldable pub candidates_to_fetch : Text → Option (List Text ⊎ ℕ)
  unfolding text_eq is_valid_path candidate_module_paths
  candidates_to_fetch full_path =
      if text_eq full_path Stdlib.module_path
      then some (inl (Stdlib.module_path ∷ []))
      else if not (is_valid_path site.check_import_path full_path)
      then some (inr 400)
      else elim (candidate_module_paths site.check_path site.check_import_path full_path) [
        | none ↦ none
        | some paths ↦ some (
            if length paths == 0
            then inr 400
            else if ltb 10 (length paths)
            then inl (drop (length paths - 10) paths)
            else inl paths)
      ]

  unfoldable pub module_paths_to_fetch : Text → Text → Option (List Text ⊎ ℕ)
  unfolding candidates_to_fetch text_eq is_error
  module_paths_to_fetch full_path module_path =
      if not (text_eq module_path unknown_module_path)
      then some (inl (module_path ∷ []))
      else elim (site.unit_module full_path) [
        | inl found ↦ some (inl (found ∷ []))
        | inr e ↦
            if not (is_error e.error not_found)
            then some (inr 500)
            else candidates_to_fetch full_path
      ]

  abbrev pub plain : ℕ → ℕ × Response
  plain status = (status, status_text status)

  -- The end of `fetchAndPoll`.
  unfoldable pub finish_poll : Option FetchResult → ℕ × Response
  unfolding to_status
  finish_poll none = plain 500
  finish_poll (some fr) = (
    if fr.status == to_status (some (root alternative_module)) then 404 else fr.status,
    fr.response,
  )

  unfoldable pub fetch_and_poll : (Text → Run) → Request → Option (ℕ × Response)
  unfolding is_supported_version contains module_paths_to_fetch check_possible_module_paths
      result_from_fetch_request finish_poll
  fetch_and_poll runs r =
      if not (is_supported_version site.semver r.full_path r.requested_version)
      then some (plain 400)
      else if not site.std_fetch && contains r.full_path
      then some (plain 400)
      else elim (module_paths_to_fetch r.full_path r.module_path) [
        | none ↦ none
        | some (inr status) ↦ some (plain status)
        | some (inl paths) ↦ some (
            finish_poll (
              result_from_fetch_request site.check_path site.renders r.full_path r.requested_version
                (check_possible_module_paths site.interval true runs paths)))
      ]
