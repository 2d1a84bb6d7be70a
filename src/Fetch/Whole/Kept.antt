-- ===== src/Fetch/Whole/Kept.antt =====
-- What a fetch with no error has kept of the passes over the module's files.
use mathlib.Core.Path.{subst}
use pkgsite.Prelude.{
  ◌≡◌, ◌<◌, ◌↔◌, refl, sym, ◌∙◌, inl, inr, [], Text, none, some, arith, length, Option-cases,
}
use pkgsite.Fetch.Accounts.{finish_result-200, finish_result-Agree, to_status-positive}
use pkgsite.Fetch.Files.{ContentDir}
use pkgsite.Fetch.Module.{
  ModuleGetter, Tools, LazyModule, Fetched, get_go_mod_path, extract_unit_metas, with_go_mod,
  with_contents, fetch_lazy_module, contents_of, opened_module,
}
use pkgsite.Fetch.Package.Rootless.{RunsOnly}
use pkgsite.Fetch.Package.States.{AllOk}
use pkgsite.Fetch.Result.{collect_units, fetch_result, fetch_module}
use pkgsite.Fetch.Whole.{GetsFs, fetch_lazy_module_total}
use pkgsite.Worker.Fetch.Env.{ok, answer_cases}
use pkgsite.Worker.Fetch.Status.{Agree, to_status-ne}

some_eq : {x y : ContentDir} → some x ≡ some y → x ≡ y
some_eq h = cc

module _ (tools : Tools) where
  with_go_mod_inv :
      (lm : LazyModule) (cd : ContentDir) (bytes : Text) (lm' : LazyModule)
      → with_go_mod tools lm cd bytes ≡ some lm'
      → (lm'.module_path ≡ lm.module_path)
        × (lm'.version ≡ lm.version)
        × (lm'.content_dir ≡ lm.content_dir)
        × (lm'.error ≡ none
            → extract_unit_metas tools lm.module_path lm.version cd
              ≡ some (ok (lm'.unit_metas, lm'.failed_packages)))
  unfolding with_go_mod
  with_go_mod_inv lm cd bytes lm' h = ground arith

  with_contents_inv :
      (mg : ModuleGetter) (lm : LazyModule) (cd : ContentDir) (lm' : LazyModule)
      → with_contents tools mg lm cd ≡ some lm'
      → (lm'.module_path ≡ lm.module_path)
        × (lm'.version ≡ lm.version)
        × (lm'.content_dir ≡ lm.content_dir)
        × (lm'.error ≡ none
            → extract_unit_metas tools lm.module_path lm.version cd
              ≡ some (ok (lm'.unit_metas, lm'.failed_packages)))
  unfolding with_contents
  with_contents_inv mg lm cd lm' h = ground (
    arith,
    with_go_mod_inv
        (record lm { go_mod_path = (get_go_mod_path tools mg lm.module_path lm.version).0 }) cd
        (get_go_mod_path tools mg lm.module_path lm.version).1 lm',
  )

  -- The status 200 tells that there is no error and that no package failed.
  abbrev pub IsTold : Fetched → Type 0
  IsTold fr = Agree fr.status fr.error × ((fr.status ≡ 200) ↔ ((fr.error ≡ none) × AllOk fr.states))

  pub fetch_result-IsTold : (lm : LazyModule) → IsTold (fetch_result tools lm)
  unfolding fetch_result
  fetch_result-IsTold lm = elim (Option-cases lm.error) [
    | inr (e, q) ↦ rw (q, fetch_result) (ground (arith, to_status-positive e, to_status-ne e))
    | inl q ↦ elim (Option-cases lm.content_dir) [
      | inl c ↦ rw (q, fetch_result) (rw (c, fetch_result) (refl, ((λ h. (refl, tt)), (λ h. refl))))
      | inr (cd, c) ↦
          let all = collect_units tools lm cd ([], lm.failed_packages, none) lm.unit_metas in
          rw (q, fetch_result)
            (rw (c, fetch_result)
              (finish_result-Agree tools lm cd all, finish_result-200 tools lm cd all))
    ]
  ]

  -- `FetchModule` returns, whatever the getter answers. Its status is 200 exactly when it has no error
  -- and no package's state tells of a failure; with no error it is 200 or 290, and with an error it is
  -- not 200. The module is to have a path, the paths of its files no leading slash, and the goroutines
  -- run for its directories only.
  pub fetch_module-IsTold :
      (module_path requested : Text) (mg : ModuleGetter)
      → 0 < length module_path
      → RunsOnly tools.reorder
      → GetsFs mg
      → (fr : Fetched) × (fetch_module tools module_path requested mg ≡ some fr) × IsTold fr
  unfolding fetch_module
  fetch_module-IsTold module_path requested mg n only fs =
      elim (Option-cases (fetch_lazy_module tools module_path requested mg)) [
        | inl q ↦ absurd (fetch_lazy_module_total tools module_path requested mg n only fs q)
        | inr (lm, q) ↦ (fetch_result tools lm, rw (q, fetch_module) refl, fetch_result-IsTold lm)
      ]

  -- What a lazy module with no error was made of.
  abbrev pub Made : Text → LazyModule → ContentDir → Type 0
  Made module_path lm cd =
      (lm.module_path ≡ module_path)
      × (extract_unit_metas tools module_path lm.version cd
          ≡ some (ok (lm.unit_metas, lm.failed_packages)))

  contents-Made :
      (mg : ModuleGetter) (lm lm' : LazyModule) (cd cd' : ContentDir)
      → with_contents tools mg lm cd ≡ some lm'
      → lm.content_dir ≡ some cd
      → lm'.error ≡ none
      → lm'.content_dir ≡ some cd'
      → Made lm.module_path lm' cd'
  contents-Made mg lm lm' cd cd' h c e d =
      let (p, v, k, x) = with_contents_inv mg lm cd lm' h in
      let same : cd ≡ cd' = some_eq (sym c ∙ (sym k ∙ d)) in
      (
        p,
        subst
            (λ c.
              extract_unit_metas tools lm.module_path lm'.version c
              ≡ some (ok (lm'.unit_metas, lm'.failed_packages)))
            same
            (subst
              (λ w.
                extract_unit_metas tools lm.module_path w cd
                ≡ some (ok (lm'.unit_metas, lm'.failed_packages)))
              (sym v) (x e)),
      )

  pub fetch_lazy_module-Made :
      (module_path requested : Text) (mg : ModuleGetter) (lm : LazyModule) (cd : ContentDir)
      → fetch_lazy_module tools module_path requested mg ≡ some lm
      → lm.error ≡ none
      → lm.content_dir ≡ some cd
      → Made module_path lm cd
  unfolding fetch_lazy_module
  fetch_lazy_module-Made module_path requested mg lm cd h e d =
      elim (answer_cases (mg.info module_path requested)) [
        | inl (f, q) ↦ absurd (ground (arith, q, h, e))
        | inr (version, q) ↦
            elim (answer_cases (contents_of tools mg module_path requested version)) [
              | inl (f, c) ↦ absurd (ground (arith, q, c, h, e))
              | inr ((c, v), r) ↦
                  contents-Made mg (opened_module tools module_path requested c v) lm c cd
                    (ground (arith, q, r, h)) refl e d
            ]
      ]
