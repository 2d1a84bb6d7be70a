-- ===== src/Fetch/Result.antt =====
-- The rest of internal/fetch/fetch.go, with `extractPackage` of internal/fetch/package.go: the units
-- of a lazy module and the result of the whole fetch. A panic is an answer of its own kind in none
-- of them: `ReadDir` is taken to answer, as io/fs does on what `Open` gave.
pub mod Gives
use pkgsite.Prelude.{
  ℕ, not, ◌&&◌, List, [], ◌∷◌, ◌++◌, Text, Option, none, some, codes, has_suffix, length, ◌==◌,
  if◌then◌else◌,
}
use pkgsite.Derrors.{
  Sentinel, Error, root, opaque, to_status, has_incomplete_packages, package_invalid_contents,
  package_documentation_html_too_large,
}
use pkgsite.Fetch.Files.{DirEntry, unopened, plain_file, unlisted, listed, ContentDir, join_path}
use pkgsite.Fetch.Load.{loaded, load_failed, LoadError, bad_package, serious}
use pkgsite.Fetch.Module.{ModuleGetter, Tools, LazyModule, Fetched, fetch_lazy_module}
use pkgsite.Fetch.Package.{PackageVersionState, state_at, rel, status_without_package}
use pkgsite.Fetch.Readme.{error_of, extract_readme}
use pkgsite.Fetch.Unit.{UnitMeta, is_package, Readme, GoPackage, ModuleUnit, module_unit}
use pkgsite.Licenses.{package_info}
use pkgsite.Worker.Fetch.Env.{Answer, ok, err}

-- The Go files of a directory.
unfoldable pub go_files_of : Text → List DirEntry → List Text
unfolding has_suffix join_path
go_files_of inner_path [] = []
go_files_of inner_path (e ∷ es) =
    if not e.is_dir && has_suffix e.name (codes ".go")
    then join_path inner_path e.name ∷ go_files_of inner_path es
    else go_files_of inner_path es

-- What `extractPackage` returns beside an error: the package, if there is one, and the state.
abbrev pub Extraction : Type 0
Extraction = Option GoPackage × PackageVersionState

-- `LazyModule.unit`: the unit, the state and the error, each of which may be missing.
abbrev pub UnitResult : Type 0
UnitResult = Option ModuleUnit × Option PackageVersionState × Option Error

-- The units, the states and the error that the loop of `fetchResult` has collected.
abbrev pub Collected : Type 0
Collected = List ModuleUnit × List PackageVersionState × Option Error

abbrev pub append_option : {A : Type 0} → List A → Option A → List A
append_option xs none = xs
append_option xs (some x) = xs ++ x ∷ []

module _ (tools : Tools) (lm : LazyModule) (cd : ContentDir) where
  abbrev pub package_state : Text → Option Sentinel → PackageVersionState
  package_state pkg_path status =
      state_at tools.check_import_path lm.module_path lm.version pkg_path status

  -- The status of a package that was loaded.
  abbrev pub status_of_package : GoPackage → Option Sentinel
  status_of_package pkg = if pkg.too_large then some package_documentation_html_too_large else none

  unfoldable pub extract_loaded : Text → List Text → Answer Extraction
  unfolding rel to_status
  extract_loaded pkg_path go_files =
      elim (tools.load_package cd lm.module_path lm.version go_files
        (rel pkg_path lm.module_path)) [
          | load_failed bad_package ↦ ok (
            none,
            package_state pkg_path (
                status_without_package tools.check_import_path lm.module_path lm.version
                  (some package_invalid_contents) go_files),
          )
          | load_failed LoadError.not_found ↦ err (opaque Error.other)
          | load_failed (serious e) ↦ err (opaque e)
          | loaded none ↦ ok (
            none,
            package_state pkg_path (
                status_without_package tools.check_import_path lm.module_path lm.version none
                  go_files),
          )
          | loaded (some pkg) ↦ ok (some pkg, package_state pkg_path (status_of_package pkg))
        ]

  unfoldable pub extract_package : Text → Answer Extraction
  unfolding rel go_files_of extract_loaded
  extract_package pkg_path = elim (cd.opened (rel pkg_path lm.module_path)) [
    | unopened f ↦ err (error_of f)
    | plain_file ↦ err Error.other
    | unlisted f ↦ err (error_of f)
    | listed entries ↦
        let go_files = go_files_of (rel pkg_path lm.module_path) entries in
        if length go_files == 0 then err Error.other else extract_loaded pkg_path go_files
  ]

  abbrev pub make_unit : UnitMeta → Option GoPackage → Option Readme → ModuleUnit
  make_unit um pkg readme =
      module_unit (package_info tools.classifier lm.module_path cd) lm.module_path um pkg readme

  unfoldable pub unit : UnitMeta → UnitResult
  unfolding extract_readme is_package extract_package module_unit package_info
  unit um = elim (extract_readme cd lm.module_path um.path) [
    | err e ↦ (none, none, some e)
    | ok readme ↦
        if not (is_package um)
        then (some (make_unit um none readme), none, none)
        else elim (extract_package um.path) [
          | err e ↦ (none, none, some e)
          | ok (pkg, pvs) ↦
              if not (pvs.status == 200)
              then (none, some pvs, none)
              else (some (make_unit um pkg readme), some pvs, none)
        ]
  ]

  unfoldable pub collect_unit : Collected → UnitMeta → Collected
  unfolding unit is_package
  collect_unit (units, states, error) um =
      let (u, pvs, e) = unit um in
      (
        append_option units u,
        (if is_package um then append_option states pvs else states),
        elim e [ none ↦ error | some e ↦ some e ],
      )

  unfoldable pub collect_units : Collected → List UnitMeta → Collected
  unfolding collect_unit
  collect_units c [] = c
  collect_units c (um ∷ ums) = collect_units (collect_unit c um) ums

-- The loop over the states at the end.
unfoldable pub status_with_states : ℕ → List PackageVersionState → ℕ
unfolding to_status
status_with_states status [] = status
status_with_states status (s ∷ ss) =
    status_with_states
      (if not (s.status == 200) then to_status (some (root has_incomplete_packages)) else status) ss

abbrev pub at_least_ok : ℕ → ℕ
at_least_ok status = if status == 0 then 200 else status

-- The result with the fields that it always has.
abbrev pub fetched_with :
    LazyModule → ℕ → Option Error → List ModuleUnit → List PackageVersionState → Fetched
fetched_with lm status error units states = record {
  module_path = lm.module_path;
  requested_version = lm.requested_version;
  resolved_version = lm.version;
  has_go_mod = lm.has_go_mod;
  go_mod_path = lm.go_mod_path;
  status = status;
  error = error;
  units = units;
  states = states;
}

-- The result of what the loop collected.
unfoldable pub finish_result : LazyModule → Collected → Fetched
unfolding status_with_states to_status
finish_result lm (units, states, error) =
    fetched_with lm
      (status_with_states (at_least_ok (elim error [ none ↦ 0 | some e ↦ to_status (some e) ]))
        states)
      error units states

-- `fetchResult`. A module with no error has its contents.
unfoldable pub fetch_result : Tools → LazyModule → Fetched
fetch_result tools lm = elim lm.error [
  | some e ↦ fetched_with lm (at_least_ok (to_status (some e))) (some e) [] []
  | none ↦ elim lm.content_dir [
    | none ↦ fetched_with lm 200 none [] []
    | some cd ↦
        finish_result lm (collect_units tools lm cd ([], lm.failed_packages, none) lm.unit_metas)
  ]
]

unfoldable pub fetch_module : Tools → Text → Text → ModuleGetter → Option Fetched
fetch_module tools module_path requested_version mg =
    elim (fetch_lazy_module tools module_path requested_version mg) [
      | none ↦ none
      | some lm ↦ some (fetch_result tools lm)
    ]
