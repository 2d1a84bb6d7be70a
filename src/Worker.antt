-- ===== src/Worker.antt =====
-- internal/worker: load shedding, and the fetching of a module version.
pub mod LoadShedder
pub mod Fetch
