-- ===== src/Frontend/FetchServer/Update.antt =====
-- `FetchAndUpdateState` of internal/frontend/fetchserver/fetch.go, which the in-memory queue calls. The
-- rows that it upserts into version_map are recorded. What `FetchModule` returns is given, and so are
-- the errors of the database.
use pkgsite.Prelude.{ℕ, Text, Option, none, some, ◌≡◌, ◌≢◌, ◌↔◌, arith}
use pkgsite.Derrors.{Error, wrap}
use pkgsite.Fetch.Module.{Fetched}
use pkgsite.Worker.Fetch.Status.{Agree}

-- The row of version_map; its error is a text in the database.
pub record MapRow : Type 0 where
  pub module_path : Text
  pub requested_version : Text
  pub resolved_version : Text
  pub go_mod_path : Text
  pub status : ℕ
  pub error : Option Error

abbrev pub row_of : Fetched → ℕ → MapRow
row_of fr status = record {
  module_path = fr.module_path;
  requested_version = fr.requested_version;
  resolved_version = fr.resolved_version;
  go_mod_path = fr.go_mod_path;
  status = status;
  error = fr.error;
}

module _ (insert_module : Fetched → Option Error) (upsert : MapRow → Option Error) where
  -- The status that is recorded: of the fetch, or of an insertion that fails.
  unfoldable pub recorded_status : Fetched → ℕ
  recorded_status fr = elim fr.error [
    | some e ↦ fr.status
    | none ↦ elim (insert_module fr) [ none ↦ fr.status | some e ↦ 500 ]
  ]

  -- The status and the error that are returned, with the row.
  unfoldable pub fetch_and_update_state : Fetched → (ℕ × Option Error) × MapRow
  unfolding recorded_status
  fetch_and_update_state fr =
      let row = row_of fr (recorded_status fr) in
      elim (upsert row) [
        | some e ↦ ((500, some (wrap e)), row)
        | none ↦ elim fr.error [
          | some e ↦ ((fr.status, some (wrap e)), row)
          | none ↦ ((200, none), row)
        ]
      ]

  -- With a fetch whose status and error agree, the status and the error that are returned agree, and
  -- are a success exactly when the fetch has no error and the row could be written: whether the module
  -- could be inserted shows only in the row.
  pub fetch_and_update_state-Returns :
      (fr : Fetched)
      → Agree fr.status fr.error
      → Agree (fetch_and_update_state fr).0.0 (fetch_and_update_state fr).0.1
        × (((fetch_and_update_state fr).0.0 ≡ 200)
            ↔ ((fr.error ≡ none) × (upsert (fetch_and_update_state fr).1 ≡ none)))
        × ((fr.error ≡ none) → insert_module fr ≢ none → (fetch_and_update_state fr).1.status ≡ 500)
  unfolding fetch_and_update_state
  fetch_and_update_state-Returns fr h = ground (arith, h)
