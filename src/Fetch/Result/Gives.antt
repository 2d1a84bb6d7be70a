-- ===== src/Fetch/Result/Gives.antt =====
-- What a unit gives: the package as it was loaded, or the state of one that failed.
use pkgsite.Prelude.{
  Bool, true, false, not, ◌≡◌, ◌≢◌, ◌<◌, refl, ◌⊎◌, inl, inr, List, Text, Option, none, some, arith,
  ◌==◌, if◌then◌else◌, Bool-cases, length, sym, ◌∙◌,
}
use mathlib.Core.Bool.{false≢true}
use pkgsite.Derrors.{Error, root, package_invalid_contents, package_build_context_not_supported}
use pkgsite.Fetch.Files.{ContentDir, Opened, unopened, plain_file, unlisted, listed}
use pkgsite.Fetch.Load.{loaded}
use pkgsite.Fetch.Module.{Tools, LazyModule}
use pkgsite.Fetch.Package.{PackageVersionState, rel}
use pkgsite.Fetch.Result.{
  Extraction, UnitResult, extract_loaded, extract_package, make_unit, go_files_of, unit,
}
use pkgsite.Fetch.Unit.{UnitMeta, Readme, GoPackage, ModuleUnit, is_package, module_unit}
use pkgsite.Fetch.Readme.{error_of, extract_readme}
use pkgsite.Worker.Fetch.Env.{Answer, ok, err, answer_cases}
use pkgsite.Worker.Fetch.Status.{to_status-ne}

module _ (tools : Tools) (lm : LazyModule) (cd : ContentDir) where
  extract_loaded-path :
      (p : Text) (files : List Text) {x : Extraction}
      → extract_loaded tools lm cd p files ≡ ok x
      → x.1.package_path ≡ p
  unfolding extract_loaded
  extract_loaded-path p files h = ground arith

  extract_package-path :
      (p : Text) {x : Extraction} → extract_package tools lm cd p ≡ ok x → x.1.package_path ≡ p
  unfolding extract_package
  extract_package-path p h = grind (arith, extract_loaded-path)

  -- The unit of a package that was loaded: with the package's path, name, imports and documentation.
  abbrev pub IsLoaded : Text → ModuleUnit → Type 0
  IsLoaded p u =
      (u.unit_meta.path ≡ p)
      × (pkg : GoPackage) × (files : List Text) × (tools.load_package cd lm.module_path lm.version
            files (rel p lm.module_path)
          ≡ loaded (some pkg))
      × (u.unit_meta.name ≡ pkg.name)
      × (u.imports ≡ pkg.imports)
      × (u.documentation ≡ pkg.docs)

  -- With a state that is in order, the package was loaded.
  extract_loaded-some :
      (p : Text) (files : List Text) {o : Option GoPackage} {s : PackageVersionState}
      → 0 < length files
      → extract_loaded tools lm cd p files ≡ ok (o, s)
      → s.status ≡ 200
      → (pkg : GoPackage) × (o ≡ some pkg)
        × (tools.load_package cd lm.module_path lm.version files (rel p lm.module_path)
            ≡ loaded (some pkg))
  unfolding extract_loaded
  extract_loaded-some p files {o} {s} n h k = ground (
    arith,
    n,
    h,
    k,
    to_status-ne (root package_invalid_contents),
    to_status-ne (root package_build_context_not_supported),
  )

  extract_package-some :
      (p : Text) {o : Option GoPackage} {s : PackageVersionState}
      → extract_package tools lm cd p ≡ ok (o, s)
      → s.status ≡ 200
      → (pkg : GoPackage) × (files : List Text) × (o ≡ some pkg)
        × (tools.load_package cd lm.module_path lm.version files (rel p lm.module_path)
            ≡ loaded (some pkg))
  unfolding extract_package
  extract_package-some p {o} {s} h k = go (cd.opened (rel p lm.module_path)) h
    where
      refused : ◌≡◌ {A = Answer Extraction} (err Error.other) (ok (o, s)) → ⊥
      refused x = cc

      go :
          (d : Opened)
          → (elim d [
            | unopened f ↦ err (error_of f)
            | plain_file ↦ err Error.other
            | unlisted f ↦ err (error_of f)
            | listed entries ↦
                let go_files = go_files_of (rel p lm.module_path) entries in
                if length go_files == 0
                then err Error.other
                else extract_loaded tools lm cd p go_files
          ])
            ≡ ok (o, s)
          → (pkg : GoPackage) × (files : List Text) × (o ≡ some pkg)
            × (tools.load_package cd lm.module_path lm.version files (rel p lm.module_path)
                ≡ loaded (some pkg))
      go (unopened f) e = cc
      go plain_file e = cc
      go (unlisted f) e = cc
      go (listed entries) e =
          let files = go_files_of (rel p lm.module_path) entries in
          elim (Bool-cases (length files == 0)) [
            | inl y ↦ absurd (refused (rw y at e))
            | inr n ↦
                let (pkg, q, l) =
                  extract_loaded-some p files {o = o} {s = s} (ground (arith, n)) (rw n at e) k in
                (pkg, files, q, l)
          ]

  -- What a unit gives: an error, the unit, or the state of its package, which failed.
  abbrev pub Gives : UnitMeta → UnitResult → Type 0
  Gives um (u, pvs, e) =
      ((f : Error) × (e ≡ some f))
      ⊎ ((e ≡ none) × (v : ModuleUnit) × (u ≡ some v) × (is_package um ≡ true → IsLoaded um.path v))
      ⊎ ((e ≡ none)
          × (s : PackageVersionState) × (pvs ≡ some s)
          × (s.package_path ≡ um.path)
          × (s.status ≢ 200))

  loaded-IsLoaded :
      (um : UnitMeta) (readme : Option Readme) (pkg : GoPackage) (files : List Text)
      → tools.load_package cd lm.module_path lm.version files (rel um.path lm.module_path)
        ≡ loaded (some pkg)
      → IsLoaded um.path (make_unit tools lm cd um (some pkg) readme)
  unfolding module_unit
  loaded-IsLoaded um readme pkg files h = (refl, pkg, files, h, refl, refl, refl)

  package_Gives :
      (um : UnitMeta) (readme : Option Readme)
      → Gives um (elim (extract_package tools lm cd um.path) [
        | err e ↦ (none, none, some e)
        | ok (pkg, pvs) ↦
            if not (pvs.status == 200)
            then (none, some pvs, none)
            else (some (make_unit tools lm cd um pkg readme), some pvs, none)
      ])
  package_Gives um readme = elim (answer_cases (extract_package tools lm cd um.path)) [
    | inl (e, q) ↦ rw q (inl (e, refl))
    | inr ((pkg, pvs), q) ↦ rw q (elim (Bool-cases (pvs.status == 200)) [
      | inl y ↦ rw y (
          inr (
            inl (
              refl,
              make_unit tools lm cd um pkg readme,
              refl,
              λ b.
                  let (p, files, e, l) =
                    extract_package-some um.path {o = pkg} {s = pvs} q (ground (arith, y)) in
                  rw e (loaded-IsLoaded um readme p files l),
            )))
      | inr n ↦ rw n (inr (inr (refl, pvs, refl, extract_package-path um.path q, ground arith)))
    ])
  ]

  pub unit-Gives : (um : UnitMeta) → Gives um (unit tools lm cd um)
  unfolding unit
  unit-Gives um = elim (answer_cases (extract_readme cd lm.module_path um.path)) [
    | inl (e, q) ↦ rw (q, unit) (inl (e, refl))
    | inr (readme, q) ↦ rw (q, unit) (go readme (is_package um) refl)
  ]
    where
      go :
          (readme : Option Readme) (b : Bool)
          → is_package um ≡ b
          → Gives um (
              if not b
              then (some (make_unit tools lm cd um none readme), none, none)
              else elim (extract_package tools lm cd um.path) [
                | err e ↦ (none, none, some e)
                | ok (pkg, pvs) ↦
                    if not (pvs.status == 200)
                    then (none, some pvs, none)
                    else (some (make_unit tools lm cd um pkg readme), some pvs, none)
              ])
      go readme true y = package_Gives um readme
      go readme false n = inr (
          inl (
            refl,
            make_unit tools lm cd um none readme,
            refl,
            λ b. absurd (false≢true (sym n ∙ b)),
          ))
