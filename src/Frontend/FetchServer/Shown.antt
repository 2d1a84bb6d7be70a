-- ===== src/Frontend/FetchServer/Shown.antt =====
-- `fetchAndPoll` as a whole: it always answers, by few statuses, and promises no page that is not
-- there.
use pkgsite.Prelude.{
  ℕ, ◌-◌, Bool, true, false, not, ◌&&◌, List, [], ◌∷◌, Text, Option, none, some, map, length, drop,
  ltb, ◌⊎◌, inl, inr, ◌≡◌, refl, sym, ap, ◌∙◌, ◌==◌, if◌then◌else◌, Bool-cases, In, text_eq, codes,
}
use pkgsite.Derrors.{is_error, not_found}
use pkgsite.Frontend.FetchServer.{
  FetchResult, DbError, Response, Look, Run, check_module_path, check_possible_module_paths,
}
use pkgsite.Frontend.FetchServer.Looks.{Found, looks_of, check_module_path-ok}
use pkgsite.Frontend.FetchServer.Served.{Answers, result_from_fetch_request-Answers}
use pkgsite.Frontend.FetchServer.Verdict.{
  result_from_fetch_request, Request, Site, candidates_to_fetch, module_paths_to_fetch, plain,
  finish_poll, fetch_and_poll,
}
use pkgsite.Frontend.UrlInfo.{is_supported_version, is_valid_path}
use pkgsite.Paths.{unknown_module_path}
use pkgsite.Paths.Candidates.{candidate_module_paths}
use pkgsite.Paths.Candidates.Terminates.{candidate_module_paths-Below}
use pkgsite.Stdlib
use pkgsite.Stdlib.{contains}

-- The statuses that a user is shown; success only when a look at some module found the path.
abbrev pub IsShown : (Text → Run) → ℕ → Type 0
IsShown runs status =
    ((status ≡ 200)
      × (module_path : Text) × (look : Look) × In look (looks_of (runs module_path))
      × Found look)
    ⊎ (status ≡ 400)
    ⊎ (status ≡ 404)
    ⊎ (status ≡ 408)
    ⊎ (status ≡ 500)

abbrev Shows : (Text → Run) → Option (ℕ × Response) → Type 0
Shows runs o =
    (status : ℕ) × (response : Response) × (o ≡ some (status, response)) × IsShown runs status

In-map :
    (f : Text → FetchResult) (paths : List Text) (fr : FetchResult)
    → In fr (map f paths)
    → (path : Text) × (fr ≡ f path)
In-map f [] fr h = absurd h
In-map f (p ∷ ps) fr (inl e) = (p, e)
In-map f (p ∷ ps) fr (inr h) = In-map f ps fr h

candidate_module_paths-total :
    (check_path check_import_path : Text → Bool) (full_path : Text)
    → (r : List Text) × (candidate_module_paths check_path check_import_path full_path ≡ some r)
unfolding candidate_module_paths
candidate_module_paths-total check_path check_import_path full_path =
    elim (Bool-cases (contains full_path)) [
      | inl y ↦ (
        (if check_import_path full_path then codes "std" ∷ [] else []),
        rw (candidate_module_paths, y) refl,
      )
      | inr n ↦
          (let (r, e, _) = candidate_module_paths-Below check_path check_import_path full_path n in
            (r, e))
    ]

-- The module paths to fetch, or the status of a refusal.
abbrev Plan : Option (List Text ⊎ ℕ) → Type 0
Plan none = ⊥
Plan (some (inl paths)) = Unit
Plan (some (inr status)) = (status ≡ 400) ⊎ (status ≡ 500)

Plan-if : (b : Bool) (x y : Option (List Text ⊎ ℕ)) → Plan x → Plan y → Plan (if b then x else y)
Plan-if true x y hx hy = hx
Plan-if false x y hx hy = hy

Plan-some-if :
    (b : Bool) (x y : List Text ⊎ ℕ)
    → Plan (some x)
    → Plan (some y)
    → Plan (some (if b then x else y))
Plan-some-if true x y hx hy = hx
Plan-some-if false x y hx hy = hy

module _ (site : Site) where
  candidates_to_fetch-Plan : (full_path : Text) → Plan (candidates_to_fetch site full_path)
  unfolding candidates_to_fetch
  candidates_to_fetch-Plan full_path =
      let (paths, e) =
        candidate_module_paths-total site.check_path site.check_import_path full_path in
      Plan-if (text_eq full_path Stdlib.module_path) _ _ tt (
        Plan-if (not (is_valid_path site.check_import_path full_path)) _ _ (inl refl) (
          rw e (
            Plan-some-if (length paths == 0) _ _ (inl refl) (
              Plan-some-if (ltb 10 (length paths)) (inl (drop (length paths - 10) paths))
                (inl paths) tt tt))))

  module_paths_to_fetch-Plan :
      (full_path module_path : Text) → Plan (module_paths_to_fetch site full_path module_path)
  unfolding module_paths_to_fetch
  module_paths_to_fetch-Plan full_path module_path =
      Plan-if (not (text_eq module_path unknown_module_path)) _ _ tt
        (known (site.unit_module full_path))
    where
      known :
          (o : Text ⊎ DbError)
          → Plan (elim o [
            | inl found ↦ some (inl (found ∷ []))
            | inr e ↦
                if not (is_error e.error not_found)
                then some (inr 500)
                else candidates_to_fetch site full_path
          ])
      known (inl found) = tt
      known (inr e) =
          Plan-if (not (is_error e.error not_found)) _ _ (inr refl)
            (candidates_to_fetch-Plan full_path)

  -- The answer made from the results of the modules.
  abbrev outcome : (Text → Run) → Request → List Text → Option FetchResult
  outcome runs r paths =
      result_from_fetch_request site.check_path site.renders r.full_path r.requested_version
        (check_possible_module_paths site.interval true runs paths)

  finish_poll-IsShown :
      (runs : Text → Run) (r : Request) (paths : List Text) (o : Option FetchResult)
      → Answers site.check_path site.renders r.full_path r.requested_version
          (check_possible_module_paths site.interval true runs paths)
          o
      → IsShown runs (finish_poll site o).0
  unfolding finish_poll check_possible_module_paths
  finish_poll-IsShown runs r paths none a = inr (inr (inr (inr refl)))
  finish_poll-IsShown runs r paths (some g) (fr, place, v) = elim v [
    | inl (e, ok) ↦
        (let (path, same) = In-map (check_module_path site.interval true runs) paths fr place in
          let (look, seen, found) =
            check_module_path-ok site.interval runs path (sym (ap result_status same) ∙ ok) in
          inl (rw e refl, path, look, seen, found))
    | inr (inl e) ↦ inr (inr (inl (rw e refl)))
    | inr (inr (inl e)) ↦ inr (inr (inr (inl (rw e refl))))
    | inr (inr (inr (inl e))) ↦ inr (inr (inl (rw e refl)))
    | inr (inr (inr (inr e))) ↦ inr (inr (inr (inr (rw e refl))))
  ]
    where
      result_status : FetchResult → ℕ
      result_status f = f.status

  Shows-if :
      (runs : Text → Run) (b : Bool) (x y : Option (ℕ × Response))
      → Shows runs x
      → Shows runs y
      → Shows runs (if b then x else y)
  Shows-if runs true x y hx hy = hx
  Shows-if runs false x y hx hy = hy

  -- Whatever the database answers, and when: a request to fetch a path is answered, by the status
  -- 200, 400, 404, 408 or 500. It is 200 only if some look at a module saw its row in version_map,
  -- with a status below 400, and the path in it.
  pub fetch_and_poll-Shows :
      (runs : Text → Run) (r : Request)
      → (status : ℕ) × (response : Response) × (fetch_and_poll site runs r
          ≡ some (status, response))
        × IsShown runs status
  unfolding fetch_and_poll
  fetch_and_poll-Shows runs r =
      Shows-if runs (not (is_supported_version site.semver r.full_path r.requested_version)) _ _
        (_, _, refl, inr (inl refl))
        (Shows-if runs (not site.std_fetch && contains r.full_path) _ _ (_, _, refl, inr (inl refl))
          (planned (module_paths_to_fetch site r.full_path r.module_path)
            (module_paths_to_fetch-Plan r.full_path r.module_path)))
    where
      planned :
          (o : Option (List Text ⊎ ℕ))
          → Plan o
          → Shows runs (elim o [
            | none ↦ none
            | some (inr status) ↦ some (plain site status)
            | some (inl paths) ↦ some (finish_poll site (outcome runs r paths))
          ])
      planned none p = absurd p
      planned (some (inl paths)) p = (
        _,
        _,
        refl,
        finish_poll-IsShown runs r paths (outcome runs r paths) (
            result_from_fetch_request-Answers site.check_path site.renders r.full_path
              r.requested_version (check_possible_module_paths site.interval true runs paths)),
      )
      planned (some (inr status)) (inl e) = (_, _, refl, inr (inl e))
      planned (some (inr status)) (inr e) = (_, _, refl, inr (inr (inr (inr e))))
