-- ===== src/Worker/Fetch/Deletes.antt =====
-- Which rows of modules a fetch deletes.
use pkgsite.Prelude.{
  ℕ, ◌&&◌, List, [], ◌∷◌, ◌++◌, Text, none, some, ◌≡◌, refl, arith, leb, ltb, if◌then◌else◌,
  append-nil,
}
use pkgsite.Derrors.{wrap, to_status}
use pkgsite.Semver.{Semver}
use pkgsite.Worker.Fetch.Env.{Effect, FetchTask, Env, ok, err}
use pkgsite.Worker.Fetch.Insert.{
  fetch_and_insert_module, fetched_task, insert_fetched, invalidate_cache, settle,
}
use pkgsite.Worker.Fetch.Update.{
  delete_module, delete_step, requested_versions, upsert_all, version_map_step, record_state,
  process,
}

-- The module paths and versions whose rows the effects delete.
abbrev pub deleted : List Effect → List (Text × Text)
deleted [] = []
deleted (Effect.delete_module_row p v ∷ es) = (p, v) ∷ deleted es
deleted (Effect.insert_new_version p v ∷ es) = deleted es
deleted (Effect.update_latest_status p n ∷ es) = deleted es
deleted (Effect.update_latest p ∷ es) = deleted es
deleted (Effect.insert_module p v ∷ es) = deleted es
deleted (Effect.cache_delete k ∷ es) = deleted es
deleted (Effect.cache_delete_prefix k ∷ es) = deleted es
deleted (Effect.update_latest_good p ∷ es) = deleted es
deleted (Effect.upsert_version_map p r v n ∷ es) = deleted es
deleted (Effect.reconcile_search p v n ∷ es) = deleted es
deleted (Effect.update_version_state p v n ∷ es) = deleted es

-- The row of a path and a version, for the statuses from 400 to 499.
abbrev pub row_if : ℕ → Text → Text → List (Text × Text)
row_if status p v = if leb 400 status && ltb status 500 then (p, v) ∷ [] else []

deleted-append : (xs ys : List Effect) → deleted (xs ++ ys) ≡ deleted xs ++ deleted ys
deleted-append [] ys = refl
deleted-append (Effect.delete_module_row p v ∷ xs) ys = rw (deleted-append xs ys) refl
deleted-append (Effect.insert_new_version p v ∷ xs) ys = deleted-append xs ys
deleted-append (Effect.update_latest_status p n ∷ xs) ys = deleted-append xs ys
deleted-append (Effect.update_latest p ∷ xs) ys = deleted-append xs ys
deleted-append (Effect.insert_module p v ∷ xs) ys = deleted-append xs ys
deleted-append (Effect.cache_delete k ∷ xs) ys = deleted-append xs ys
deleted-append (Effect.cache_delete_prefix k ∷ xs) ys = deleted-append xs ys
deleted-append (Effect.update_latest_good p ∷ xs) ys = deleted-append xs ys
deleted-append (Effect.upsert_version_map p r v n ∷ xs) ys = deleted-append xs ys
deleted-append (Effect.reconcile_search p v n ∷ xs) ys = deleted-append xs ys
deleted-append (Effect.update_version_state p v n ∷ xs) ys = deleted-append xs ys

module _ (env : Env) where
  insert_fetched-deleted : (ft : FetchTask) → deleted (insert_fetched env ft).1 ≡ []
  unfolding insert_fetched invalidate_cache
  insert_fetched-deleted ft = ground arith

  fetch_and_insert_module-deleted :
      (path requested : Text) → deleted (fetch_and_insert_module env path requested).1 ≡ []
  unfolding fetch_and_insert_module
  fetch_and_insert_module-deleted path requested =
      ground (arith, insert_fetched-deleted (fetched_task env path requested))

  upsert_all-deleted : (ft : FetchTask) (vs : List Text) → deleted (upsert_all env ft vs).1 ≡ []
  unfolding upsert_all
  upsert_all-deleted ft [] = refl
  upsert_all-deleted ft (v ∷ vs) = ground (arith, upsert_all-deleted ft vs)

  delete_step-deleted :
      (ft : FetchTask)
      → deleted (delete_step env ft).1 ≡ row_if ft.status ft.mod_path ft.resolved_version
  unfolding delete_step delete_module
  delete_step-deleted ft = ground arith

  record_state-deleted :
      (semver : Semver) (path : Text) (ft : FetchTask)
      → deleted (record_state env semver path ft).1 ≡ []
  unfolding record_state
  record_state-deleted semver path ft = ground arith

  version_map_step-deleted : (ft : FetchTask) → deleted (version_map_step env ft).1 ≡ []
  unfolding version_map_step
  version_map_step-deleted ft = upsert_all-deleted ft (requested_versions ft)

  -- The rows to delete: of a module that is excluded; else of one whose fetch or whose insertion has an
  -- error, at the requested version; else of the fetched version.
  abbrev pub rows_to_delete : Text → Text → List (Text × Text)
  rows_to_delete path requested =
      let fr = env.fetch_module path requested in
      if env.is_excluded path requested then row_if 403 path requested else elim fr.error [
        | some e ↦ row_if (to_status (some (wrap e))) fr.mod_path requested
        | none ↦ elim (env.insert fr.mod_path fr.resolved_version) [
          | err e ↦ row_if (to_status (some (wrap e))) fr.mod_path requested
          | ok _ ↦ row_if fr.status fr.mod_path fr.resolved_version
        ]
      ]

  settled :
      (path requested : Text)
      → row_if
          (fetch_and_insert_module env path requested).0.status
          (fetch_and_insert_module env path requested).0.mod_path
          (fetch_and_insert_module env path requested).0.resolved_version
        ≡ rows_to_delete path requested
  unfolding fetch_and_insert_module settle insert_fetched fetched_task
  settled path requested = ground arith

  -- From the fetching of the module on, a fetch deletes at most one row of modules. For a module that is
  -- excluded it is the row of its path and the requested version. Else, where the fetch or the insertion
  -- has an error, it is the row of the fetched module's path and the requested version, if the error's
  -- status is from 400 to 499; with no error it is the row of the fetched version, if the status of the
  -- fetch is from 400 to 499.
  pub process-deletes :
      (semver : Semver) (path requested : Text)
      → deleted (process env semver path requested).1 ≡ rows_to_delete path requested
  unfolding process
  process-deletes semver path requested = rw (← settled path requested) (
      simp (
        deleted-append, fetch_and_insert_module-deleted, delete_step-deleted,
        version_map_step-deleted, record_state-deleted, append-nil,
      ))
