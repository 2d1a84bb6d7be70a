-- ===== src/Worker/Fetch/Insert.antt =====
-- The first half of a fetch: the proxy's info, load shedding, the latest versions, the module.
use pkgsite.Prelude.{
  ℕ, not, ◌&&◌, List, [], ◌∷◌, ◌++◌, Text, Option, none, some, codes, text_eq, ltb, if◌then◌else◌,
}
use pkgsite.Derrors
use pkgsite.Derrors.{Error, root, wrap, to_status, wrap_error, module_too_large, shedding_load}
use pkgsite.Paths.{main_version, master_version}
use pkgsite.Stdlib
use pkgsite.Worker.Fetch.Env.{Effect, ok, err, FetchTask, Env, Traced, pure, call}
use pkgsite.Worker.LoadShedder.{LoadShedder, should_shed}

-- The deferred function of `fetchAndInsertModule`.
unfoldable pub settle : Text → FetchTask → FetchTask
unfolding to_status
settle requested ft = elim ft.error [
  | none ↦ ft
  | some e ↦ record ft {
    error = some (wrap e);
    status = to_status (some (wrap e));
    resolved_version = requested;
  }
]

module _ (env : Env) where
  -- `FetchAndUpdateLatest`: nil when the answer is an error of the database.
  unfoldable pub fetch_and_update_latest : Text → Traced (Option Error)
  unfolding to_status wrap_error
  fetch_and_update_latest path = elim (env.latest_versions path) [
    | ok (some lmv) ↦ call (wrap_error (env.put_latest path)) (Effect.update_latest path)
    | ok none ↦
        call (wrap_error (env.put_latest_status path 404)) (Effect.update_latest_status path 404)
    | err e ↦
        call (wrap_error (env.put_latest_status path (to_status (some e))))
          (Effect.update_latest_status path (to_status (some e)))
  ]

  -- The `for` of `invalidateCache` over the bytes that end a path component. The errors are counted
  -- and logged by the caller, and change nothing else.
  unfoldable pub invalidate_cache : Text → List Effect
  invalidate_cache path =
      if not env.has_cache
      then []
      else Effect.cache_delete (codes "/" ++ env.series_path path)
        ∷ Effect.cache_delete_prefix (codes "/" ++ (env.series_path path ++ codes "/"))
        ∷ Effect.cache_delete_prefix (codes "/" ++ (env.series_path path ++ codes "@"))
        ∷ Effect.cache_delete_prefix (codes "/" ++ (env.series_path path ++ codes "?"))
        ∷ Effect.cache_delete_prefix (codes "/" ++ (env.series_path path ++ codes "#"))
        ∷ []

  -- `resolvedVersion`: "" when there is none.
  unfoldable pub resolved_version : Text → Text → Text
  unfolding text_eq
  resolved_version path requested =
      if text_eq path Stdlib.module_path && text_eq requested main_version
      then []
      else elim (env.resolve path requested) [ ok v ↦ v | err e ↦ [] ]

  -- The fetched module with the versions of the branches.
  unfoldable pub fetched_task : Text → Text → FetchTask
  unfolding resolved_version
  fetched_task path requested =
      let fr = env.fetch_module path requested in
      record {
        mod_path = fr.mod_path;
        requested_version = fr.requested_version;
        resolved_version = fr.resolved_version;
        go_mod_path = fr.go_mod_path;
        status = fr.status;
        error = fr.error;
        main_version = if env.fetch_disabled then [] else resolved_version path main_version;
        master_version = if env.fetch_disabled then [] else resolved_version path master_version;
      }

  -- `InsertModule` and what follows it.
  unfoldable pub insert_fetched : FetchTask → Traced FetchTask
  unfolding to_status invalidate_cache
  insert_fetched ft = elim (env.insert ft.mod_path ft.resolved_version) [
    | err e ↦ (
      record ft { status = to_status (some e); error = some e },
      Effect.insert_module ft.mod_path ft.resolved_version ∷ [],
    )
    | ok is_latest ↦ (
      ft,
      Effect.insert_module ft.mod_path ft.resolved_version
          ∷ (if is_latest then invalidate_cache ft.mod_path else []),
    )
  ]

  unfoldable pub fetch_and_insert_module : Text → Text → Traced FetchTask
  unfolding settle fetched_task insert_fetched
  fetch_and_insert_module path requested =
      let ft = fetched_task path requested in
      if env.is_excluded path requested
      then pure (
          settle requested (record {
            mod_path = path;
            requested_version = requested;
            resolved_version = [];
            go_mod_path = [];
            status = 0;
            error = some (root Derrors.excluded);
            main_version = [];
            master_version = [];
          }))
      else elim ft.error [
        | some e ↦ pure (settle requested ft)
        | none ↦ (settle requested (insert_fetched ft).0, (insert_fetched ft).1)
      ]

  -- `maybeShed`: the size that the deferred function releases, if any, and the error.
  unfoldable pub maybe_shed :
      Option LoadShedder → Text → Text → (Option ℕ × Option Error) × Option LoadShedder
  unfolding should_shed
  maybe_shed none path version = ((none, none), none)
  maybe_shed (some ls) path version = elim (env.zip_size path version) [
    | err e ↦ ((none, some e), some ls)
    | ok size ↦
        let r = should_shed size env.db_info ls in
        if r.0
        then ((none, some (wrap (root shedding_load))), some r.1)
        else if ltb env.max_zip_size size
        then ((some size, some (root module_too_large)), some r.1)
        else ((some size, none), some r.1)
  ]
