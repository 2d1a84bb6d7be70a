-- ===== src/Worker/Fetch/Composed.antt =====
-- The worker's fetcher with the fetching code of internal/fetch in the place of its answer.
use pkgsite.Prelude.{[], Text, Option, none, some, refl, inl, inr, Option-cases}
use pkgsite.Derrors.{Error}
use pkgsite.Fetch.Module.{ModuleGetter, Tools, Fetched}
use pkgsite.Fetch.Result.{fetch_module}
use pkgsite.Fetch.Module.{fetch_lazy_module}
use pkgsite.Fetch.Whole.Kept.{fetch_result-IsTold}
use pkgsite.Semver.{Semver}
use pkgsite.Worker.Fetch.Env.{FetchResult, Env}
use pkgsite.Worker.Fetch.Status.{Agree, FetchAgrees, fetch_and_update_state-Agree}
use pkgsite.Worker.Fetch.Update.{fetch_and_update_state}
use pkgsite.Worker.LoadShedder.{LoadShedder}

-- What the worker reads of a result. `none` is a fuel that runs out, which it does not for the inputs
-- of the program; it is taken for a failure.
unfoldable pub result_for_worker : Text → Text → Option Fetched → FetchResult
result_for_worker path requested none = record {
  mod_path = path;
  requested_version = requested;
  resolved_version = [];
  go_mod_path = [];
  status = 500;
  error = some Error.other;
}
result_for_worker path requested (some fr) = record {
  mod_path = fr.module_path;
  requested_version = fr.requested_version;
  resolved_version = fr.resolved_version;
  go_mod_path = fr.go_mod_path;
  status = fr.status;
  error = fr.error;
}

-- The fetcher's environment with `FetchModule`, which gets a getter for the module.
abbrev pub with_fetch_module : Tools → (Text → ModuleGetter) → Env → Env
with_fetch_module tools getter env = record env {
  fetch_module = λ path requested.
      result_for_worker path requested (fetch_module tools path requested (getter path));
}

with_fetch_module-FetchAgrees :
    (tools : Tools) (getter : Text → ModuleGetter) (env : Env)
    → FetchAgrees (with_fetch_module tools getter env)
unfolding result_for_worker fetch_module
with_fetch_module-FetchAgrees tools getter env path requested =
    elim (Option-cases (fetch_lazy_module tools path requested (getter path))) [
      | inl q ↦ rw (q, fetch_module) refl
      | inr (lm, q) ↦ rw (q, fetch_module) (fetch_result-IsTold tools lm).0
    ]

-- On every path of a worker's fetch, with the fetching code that it calls: an error comes with a status
-- that is not 200, and no error with the status 200, or 290 for a module with incomplete packages.
pub fetch_composed-Agree :
    (tools : Tools) (getter : Text → ModuleGetter) (env : Env) (semver : Semver)
    (path requested : Text) (shedder : Option LoadShedder)
    → Agree
        (fetch_and_update_state
          (with_fetch_module tools getter env)
          semver
          shedder
          path
          requested).0.0.status
        (fetch_and_update_state
          (with_fetch_module tools getter env)
          semver
          shedder
          path
          requested).0.0.error
fetch_composed-Agree tools getter env semver path requested shedder =
    fetch_and_update_state-Agree (with_fetch_module tools getter env)
      (with_fetch_module-FetchAgrees tools getter env) semver path requested shedder
