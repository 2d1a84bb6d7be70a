-- ===== src/Fetch/Whole.antt =====
-- The whole fetch of a module: it returns, its status and its error agree, and no package is lost.
pub mod Kept
pub mod Complete
use mathlib.Core.Path.{subst, ap}
use pkgsite.Prelude.{
  ◌≡◌, ◌≢◌, ◌<◌, refl, sym, ◌∙◌, inl, inr, List, [], ◌∷◌, Text, none, some, arith, In, length,
  text_eq, Bool-cases,
}
use pkgsite.Fetch.Files.{WalkEntry, ContentDir}
use pkgsite.Fetch.Load.{PackageMeta, import_path_of, load_package_meta}
use pkgsite.Fetch.Load.Agrees.{load_package_meta-path}
use pkgsite.Fetch.Module.{
  ModuleGetter, Tools, LazyModule, get_go_mod_path, extract_unit_metas, with_go_mod, with_contents,
  fetch_lazy_module, contents_of,
}
use pkgsite.Fetch.Package.{PackageVersionState, extract_or_fail}
use pkgsite.Fetch.Package.Covers.{LoadsAt}
use pkgsite.Fetch.Package.Rootless.{RunsOnly, FromDirs, extract_or_fail-FromDirs}
use pkgsite.Fetch.Unit.{UnitMeta, metas_at, module_unit_metas}
use pkgsite.Fetch.Unit.Least.{Ends, unit_paths-IsUnitPaths}
use pkgsite.Paths.Candidates.Rootless.{Rootless}
use pkgsite.Stdlib
use pkgsite.Worker.Fetch.Env.{Answer, ok, err, answer_cases}

-- The paths that a walk over a file system shows have no leading slash.
abbrev pub IsFs : ContentDir → Type 0
IsFs cd = (e : WalkEntry) → In e cd.walk → Rootless e.path

-- What a getter gives is a file system.
abbrev pub GetsFs : ModuleGetter → Type 0
GetsFs mg =
    ((path version : Text) (cd : ContentDir) → mg.content_dir path version ≡ ok cd → IsFs cd)
    × ((version v : Text) (cd : ContentDir) → mg.stdlib_content_dir version ≡ ok (cd, v) → IsFs cd)

module _ (tools : Tools) (module_path : Text) where
  loads_at :
      (version : Text) (cd : ContentDir)
      → LoadsAt tools.check_import_path module_path version
          (load_package_meta tools.parse tools.match_file cd.read_file module_path)
  loads_at version cd ps d m h =
      load_package_meta-path tools.parse tools.match_file cd.read_file module_path ps d m h

  import-Ends :
      (d : Text)
      → 0 < length module_path
      → Rootless d
      → Ends module_path (import_path_of module_path d)
  unfolding import_path_of
  import-Ends d n r = elim (Bool-cases (text_eq module_path Stdlib.module_path)) [
    | inl y ↦ inl (y, rw (y, import_path_of) r)
    | inr n' ↦ inr (n', n)
  ]

  FromDirs-Ends :
      (version : Text) (cd : ContentDir) (pkgs : List PackageMeta)
      → 0 < length module_path
      → FromDirs tools.check_import_path module_path version
          (load_package_meta tools.parse tools.match_file cd.read_file module_path)
          (loads_at version cd)
          pkgs
      → (m : PackageMeta) → In m pkgs
      → Ends module_path m.path
  FromDirs-Ends version cd [] n h m i = absurd i
  FromDirs-Ends version cd (p ∷ pkgs) n ((d, r, e, l), h) m (inl q) =
      subst (Ends module_path) (sym (ap (λ (x : PackageMeta). x.path) q ∙ e)) (import-Ends d n r)
  FromDirs-Ends version cd (p ∷ pkgs) n (f, h) m (inr i) = FromDirs-Ends version cd pkgs n h m i

  -- The units are found with the fuel given.
  extract_unit_metas_total :
      (version : Text) (cd : ContentDir)
      → 0 < length module_path
      → RunsOnly tools.reorder
      → IsFs cd
      → (r : Answer (List UnitMeta × List PackageVersionState)) × (extract_unit_metas tools
            module_path version cd
          ≡ some r)
  unfolding extract_unit_metas module_unit_metas
  extract_unit_metas_total version cd n only fs =
      elim (answer_cases (
        extract_or_fail tools.check_import_path module_path version
          (load_package_meta tools.parse tools.match_file cd.read_file module_path) tools.reorder
          cd)) [
            | inl (e, q) ↦ (err e, rw (q, extract_unit_metas) refl)
            | inr ((pkgs, states), q) ↦
                let (paths, h, v) = unit_paths-IsUnitPaths module_path pkgs (
                  FromDirs-Ends version cd pkgs n (
                    extract_or_fail-FromDirs tools.check_import_path module_path version
                      (load_package_meta tools.parse tools.match_file cd.read_file module_path)
                      (loads_at version cd) tools.reorder cd only fs q)) in
                (
                  ok (metas_at pkgs paths, states),
                  rw (q, extract_unit_metas) (rw (h, module_unit_metas) refl),
                )
          ]

module _ (tools : Tools) where
  with_go_mod_total :
      (lm : LazyModule) (cd : ContentDir) (bytes : Text)
      → extract_unit_metas tools lm.module_path lm.version cd ≢ none
      → with_go_mod tools lm cd bytes ≢ none
  unfolding with_go_mod
  with_go_mod_total lm cd bytes h = ground (arith, h)

  with_contents_total :
      (mg : ModuleGetter) (lm : LazyModule) (cd : ContentDir)
      → extract_unit_metas tools lm.module_path lm.version cd ≢ none
      → with_contents tools mg lm cd ≢ none
  unfolding with_contents
  with_contents_total mg lm cd h = ground (
    arith,
    with_go_mod_total
        (record lm { go_mod_path = (get_go_mod_path tools mg lm.module_path lm.version).0 }) cd
        (get_go_mod_path tools mg lm.module_path lm.version).1 h,
  )

  -- The contents that a getter gives are a file system.
  contents-IsFs :
      (mg : ModuleGetter) (module_path requested version resolved : Text) (cd : ContentDir)
      → GetsFs mg
      → contents_of tools mg module_path requested version ≡ ok (cd, resolved)
      → IsFs cd
  contents-IsFs mg module_path requested version resolved cd (plain, std) h =
      elim (Bool-cases mg.is_stdlib_zip) [
        | inl y ↦ std requested resolved cd (ground (arith, y, h))
        | inr n ↦ elim (answer_cases (mg.content_dir module_path version)) [
          | inl (e, q) ↦ absurd (ground (arith, n, q, h))
          | inr (c, q) ↦ plain module_path version cd (q ∙ ap ok (ground (arith, n, q, h)))
        ]
      ]

  contents_total :
      (mg : ModuleGetter) (module_path requested version : Text) (lm : LazyModule)
      → lm.module_path ≡ module_path
      → 0 < length module_path
      → RunsOnly tools.reorder
      → GetsFs mg
      → (cd : ContentDir) → contents_of tools mg module_path requested version ≡ ok (cd, lm.version)
      → with_contents tools mg lm cd ≢ none
  contents_total mg module_path requested version lm p n only fs cd h =
      with_contents_total mg lm cd (λ e.
        let (r, q) =
          extract_unit_metas_total tools module_path lm.version cd n only
            (contents-IsFs mg module_path requested version lm.version cd fs h) in
        absurd (ground (arith, p, e, q)))

  fetch_lazy_module_total :
      (module_path requested : Text) (mg : ModuleGetter)
      → 0 < length module_path
      → RunsOnly tools.reorder
      → GetsFs mg
      → fetch_lazy_module tools module_path requested mg ≢ none
  unfolding fetch_lazy_module
  fetch_lazy_module_total module_path requested mg n only fs =
      elim (answer_cases (mg.info module_path requested)) [
        | inl (e, q) ↦ rw (q, fetch_lazy_module) (λ h. cc)
        | inr (version, q) ↦
            elim (answer_cases (contents_of tools mg module_path requested version)) [
              | inl (e, c) ↦ rw (q, fetch_lazy_module) (rw (c, fetch_lazy_module) (λ h. cc))
              | inr ((cd, v), c) ↦
                  rw (q, fetch_lazy_module)
                    (rw (c, fetch_lazy_module)
                      (contents_total mg module_path requested version _ refl n only fs cd c))
            ]
      ]
