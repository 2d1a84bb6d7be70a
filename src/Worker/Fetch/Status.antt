-- ===== src/Worker/Fetch/Status.antt =====
-- The status that a fetch reports, and what it leaves behind.
use pkgsite.Prelude.{
  ℕ, Bool, true, not, ◌||◌, List, [], ◌∷◌, Text, Option, none, some, ◌≡◌, ◌≢◌, arith, ◌==◌,
}
use pkgsite.Derrors.{Error, Code, codes_table, status_of, to_status, wrap_error}
use pkgsite.Semver.{Semver}
use pkgsite.Worker.Fetch.Env.{Traced, FetchTask, Env}
use pkgsite.Worker.Fetch.Insert.{settle, fetched_task, insert_fetched, fetch_and_insert_module}
use pkgsite.Worker.Fetch.Update.{
  wrap_outcome, Outcome, delete_step, version_map_step, record_state, process,
  update_latest_and_process, insert_and_process, fetch_and_update_state,
}
use pkgsite.Worker.LoadShedder.{LoadShedder}

-- A status and an error that agree: a success is 200, or 290 for incomplete packages, and 200 comes
-- with no error.
abbrev pub agree : ℕ → Option Error → Bool
agree status none = status == 200 || status == 290
agree status (some e) = not (status == 200)

abbrev pub Agree : ℕ → Option Error → Type 0
Agree status error = agree status error ≡ true

abbrev NotOk : List Code → Type 0
NotOk [] = Unit
NotOk (c ∷ cs) = (c.code ≢ 200) × NotOk cs

status_of-ne : (e : Error) (cs : List Code) → NotOk cs → status_of e cs ≢ 200
unfolding status_of
status_of-ne e [] h = omega arith
status_of-ne e (c ∷ cs) h = ground (arith, status_of-ne e cs)

codes_table-NotOk : NotOk codes_table
unfolding codes_table
codes_table-NotOk = omega arith

-- No error has the status 200.
pub to_status-ne : (e : Error) → to_status (some e) ≢ 200
unfolding to_status
to_status-ne e = status_of-ne e codes_table codes_table-NotOk

to_status-Agree : (e : Error) → Agree (to_status (some e)) (some e)
to_status-Agree e = ground (arith, to_status-ne e)

-- What the fetcher relies on: a fetched module's status and error agree.
abbrev pub FetchAgrees : Env → Type 0
FetchAgrees env =
    (path requested : Text)
    → Agree (env.fetch_module path requested).status (env.fetch_module path requested).error

settle-Agree :
    (requested : Text) (ft : FetchTask)
    → Agree ft.status ft.error
    → Agree (settle requested ft).status (settle requested ft).error
unfolding settle
settle-Agree requested ft h = grind (arith, to_status-ne)

module _ (env : Env) where
  insert_fetched-Agree :
      (ft : FetchTask)
      → Agree ft.status ft.error
      → Agree (insert_fetched env ft).0.status (insert_fetched env ft).0.error
  unfolding insert_fetched
  insert_fetched-Agree ft h = grind (arith, to_status-ne)

  delete_step-Agree :
      (ft : FetchTask)
      → Agree ft.status ft.error
      → Agree (delete_step env ft).0.status (delete_step env ft).0.error
  unfolding delete_step
  delete_step-Agree ft h = grind (arith, to_status-ne)

  version_map_step-Agree :
      (ft : FetchTask)
      → Agree ft.status ft.error
      → Agree (version_map_step env ft).0.status (version_map_step env ft).0.error
  unfolding version_map_step
  version_map_step-Agree ft h = grind (arith, to_status-ne)

  record_state-Agree :
      (semver : Semver) (path : Text) (ft : FetchTask)
      → Agree ft.status ft.error
      → Agree (record_state env semver path ft).0.status (record_state env semver path ft).0.error
  unfolding record_state
  record_state-Agree semver path ft h = grind (arith, to_status-ne)

wrap_outcome-Agree :
    (t : Traced Outcome)
    → Agree t.0.status t.0.error
    → Agree (wrap_outcome t).0.status (wrap_outcome t).0.error
unfolding wrap_error
wrap_outcome-Agree t h = ground arith

module _ (env : Env) (agrees : FetchAgrees env) where
  insert_Agree :
      (path requested : Text)
      → Agree
          (fetch_and_insert_module env path requested).0.status
          (fetch_and_insert_module env path requested).0.error
  unfolding fetch_and_insert_module fetched_task
  insert_Agree path requested =
      grind (arith, to_status-ne, settle-Agree, insert_fetched-Agree, agrees path requested)

  module _ (semver : Semver) (path requested : Text) where
    process-Agree :
        Agree
          (process env semver path requested).0.status
          (process env semver path requested).0.error
    unfolding process
    process-Agree =
        let fetched = (fetch_and_insert_module env path requested).0 in
        let kept = (delete_step env fetched).0 in
        let mapped = (version_map_step env kept).0 in
        record_state-Agree env semver path mapped (
          version_map_step-Agree env kept
            (delete_step-Agree env fetched (insert_Agree path requested)))

    latest_Agree :
        Agree
          (update_latest_and_process env semver path requested).0.status
          (update_latest_and_process env semver path requested).0.error
    unfolding update_latest_and_process
    latest_Agree = grind (arith, to_status-ne, process-Agree)

    insert_and_process-Agree :
        (version : Text)
        → Agree
            (insert_and_process env semver path requested version).0.status
            (insert_and_process env semver path requested version).0.error
    unfolding insert_and_process
    insert_and_process-Agree version = grind (arith, to_status-ne, latest_Agree)

    -- On every path of a fetch: an error comes with a status that is not 200, and no error with the
    -- status 200, or 290 for a module with incomplete packages. The fetched module's own status and
    -- error are supposed to agree in the same way.
    pub fetch_and_update_state-Agree :
        (shedder : Option LoadShedder)
        → Agree
            (fetch_and_update_state env semver shedder path requested).0.0.status
            (fetch_and_update_state env semver shedder path requested).0.0.error
    unfolding fetch_and_update_state
    fetch_and_update_state-Agree shedder =
        grind (arith, to_status-ne, wrap_outcome-Agree, latest_Agree, insert_and_process-Agree)
