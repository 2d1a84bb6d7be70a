-- ===== src/Worker/Fetch.antt =====
-- internal/worker/fetch.go: `FetchAndUpdateState` and the functions that it calls.
pub mod Env
pub mod Insert
pub mod Update
pub mod Status
pub mod Composed
pub mod Deletes
pub mod Shedder
pub mod Last
