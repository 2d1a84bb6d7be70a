-- ===== src/Worker/Fetch/Update.antt =====
-- The second half of a fetch: what is written to the database about its result.
use pkgsite.Prelude.{
  ℕ, not, ◌&&◌, List, [], ◌∷◌, ◌++◌, Text, Option, none, some, text_eq, ltb, leb, ◌==◌,
  if◌then◌else◌,
}
use pkgsite.Derrors.{Error, not_found, other, is_error, to_status, wrap_error}
use pkgsite.Paths.{main_version, master_version, unknown_module_path}
use pkgsite.Semver.{Semver}
use pkgsite.Worker.Fetch.Env.{Effect, ok, err, FetchTask, Env, Traced, ◌>>=◌, pure, call}
use pkgsite.Worker.Fetch.Insert.{fetch_and_update_latest, fetch_and_insert_module, maybe_shed}
use pkgsite.Worker.LoadShedder.{LoadShedder, release}

-- The task after an error of the database: `ft.Error = err; ft.Status = 500`.
abbrev pub fail_task : Error → FetchTask → FetchTask
fail_task e ft = record ft { error = some e; status = 500 }

-- The same unless the status is already 500.
abbrev pub fail_task_once : Error → FetchTask → FetchTask
fail_task_once e ft = if ft.status == 500 then ft else fail_task e ft

pub record Outcome : Type 0 where
  pub status : ℕ
  pub version : Text
  pub error : Option Error

-- The versions that `updateVersionMap` updates.
unfoldable pub requested_versions : FetchTask → List Text
unfolding text_eq
requested_versions ft =
    ft.requested_version
    ∷ ((if text_eq ft.main_version ft.resolved_version then main_version ∷ [] else [])
        ++ (if text_eq ft.master_version ft.resolved_version then master_version ∷ [] else []))

abbrev pub wrap_outcome : Traced Outcome → Traced Outcome
wrap_outcome t = (record t.0 { error = wrap_error t.0.error }, t.1)

-- The deferred `deferFunc()`.
unfoldable pub release_all : Option ℕ → Option LoadShedder → Option LoadShedder
unfolding release
release_all none ls = ls
release_all (some size) none = none
release_all (some size) (some ls) = some (release size ls)

-- After an error of the database the fetch ends with its status.
unfoldable pub unless_error : (Unit {0} → Traced Outcome) → Option Error → Traced Outcome
unfolding to_status
unless_error next (some e) =
    pure (record { status = to_status (some e); version = []; error = some e })
unless_error next none = next tt

module _ (env : Env) where
  unfoldable pub delete_module : FetchTask → Traced (Option Error)
  unfolding wrap_error
  delete_module ft = elim (env.delete_row ft.mod_path ft.resolved_version) [
    | some e ↦ call (wrap_error (some e)) (Effect.delete_module_row ft.mod_path ft.resolved_version)
    | none ↦ (
      wrap_error (env.put_latest_good ft.mod_path),
      Effect.delete_module_row ft.mod_path ft.resolved_version
          ∷ Effect.update_latest_good ft.mod_path
          ∷ [],
    )
  ]

  -- The step of `FetchAndUpdateState` that deletes a module which could not be processed.
  unfoldable pub delete_step : FetchTask → Traced FetchTask
  unfolding delete_module
  delete_step ft =
      let d = delete_module ft in
      if leb 400 ft.status && ltb ft.status 500
      then ((elim d.0 [ none ↦ ft | some e ↦ fail_task e ft ]), d.1)
      else pure ft

  unfoldable pub upsert_all : FetchTask → List Text → Traced (Option Error)
  upsert_all ft [] = pure none
  upsert_all ft (v ∷ vs) =
      let rest = upsert_all ft vs in
      elim (env.upsert ft.mod_path v ft.resolved_version) [
        | some e ↦
            call (some e) (Effect.upsert_version_map ft.mod_path v ft.resolved_version ft.status)
        | none ↦
            (rest.0, Effect.upsert_version_map ft.mod_path v ft.resolved_version ft.status ∷ rest.1)
      ]

  unfoldable pub version_map_step : FetchTask → Traced FetchTask
  unfolding requested_versions upsert_all wrap_error
  version_map_step ft =
      let u = upsert_all ft (requested_versions ft) in
      ((elim (wrap_error u.0) [ none ↦ ft | some e ↦ fail_task_once e ft ]), u.1)

  unfoldable pub reconcile_step : Text → FetchTask → Traced FetchTask
  reconcile_step path ft =
      call
        (elim (env.reconcile path ft.resolved_version ft.status) [
          | none ↦ ft
          | some e ↦ fail_task_once e ft
        ])
        (Effect.reconcile_search path ft.resolved_version ft.status)

  -- `UpdateModuleVersionState` and the returns after it.
  unfoldable pub state_step : FetchTask → Traced Outcome
  state_step ft =
      call
        (elim (env.put_state ft.mod_path ft.resolved_version ft.status) [
          | none ↦ record { status = ft.status; version = ft.resolved_version; error = ft.error }
          | some e ↦ record {
            status = 500;
            version = ft.resolved_version;
            error = elim ft.error [ none ↦ some e | some _ ↦ some other ];
          }
        ])
        (Effect.update_version_state ft.mod_path ft.resolved_version ft.status)

  module _ (semver : Semver) where
    -- From the check of the resolved version on.
    unfoldable pub record_state : Text → FetchTask → Traced Outcome
    unfolding is_error reconcile_step state_step
    record_state path ft =
        if not (semver.is_valid ft.resolved_version)
        then pure (record { status = ft.status; version = ft.resolved_version; error = ft.error })
        else elim (env.has_state path ft.resolved_version) [
          | some e ↦
              if is_error e not_found
              then pure (record { status = ft.status; version = []; error = ft.error })
              else pure (record { status = 500; version = []; error = some e })
          | none ↦ reconcile_step path ft >>= state_step
        ]

    -- From the call of `fetchAndInsertModule` on.
    unfoldable pub process : Text → Text → Traced Outcome
    unfolding fetch_and_insert_module delete_step version_map_step record_state
    process path requested =
        fetch_and_insert_module env path requested
        >>= delete_step
        >>= version_map_step
        >>= record_state path

    -- From the call of `FetchAndUpdateLatest` on.
    unfoldable pub update_latest_and_process : Text → Text → Traced Outcome
    unfolding fetch_and_update_latest process unless_error
    update_latest_and_process path requested =
        fetch_and_update_latest env path >>= unless_error (λ _. process path requested)

    -- The body under `if err == nil` once the request is not shed.
    unfoldable pub insert_and_process : Text → Text → Text → Traced Outcome
    unfolding update_latest_and_process unless_error
    insert_and_process path requested version =
        call (env.insert_new path version) (Effect.insert_new_version path version)
        >>= unless_error (λ _. update_latest_and_process path requested)

    -- From the call of `getInfo` on.
    unfoldable pub after_info :
        Option LoadShedder → Text → Text → Traced Outcome × Option LoadShedder
    unfolding maybe_shed insert_and_process release_all wrap_error
    after_info shedder path requested = elim (env.get_info path requested) [
      | err e ↦ (wrap_outcome (update_latest_and_process path requested), shedder)
      | ok version ↦
          let s = maybe_shed env shedder path version in
          (
            elim s.0.1 [
              | some e ↦
                  wrap_outcome
                    (pure (record { status = to_status (some e); version = []; error = some e }))
              | none ↦ wrap_outcome (insert_and_process path requested version)
            ],
            release_all s.0.0 s.1,
          )
    ]

    unfoldable pub fetch_and_update_state :
        Option LoadShedder → Text → Text → Traced Outcome × Option LoadShedder
    unfolding after_info text_eq wrap_error
    fetch_and_update_state shedder path requested =
        if text_eq path unknown_module_path
        then (
          wrap_outcome (pure (record { status = 500; version = []; error = some other })),
          shedder,
        )
        else after_info shedder path requested
