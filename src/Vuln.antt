-- ===== src/Vuln.antt =====
-- internal/vuln: the client of a vulnerability database, and what the pages show.
pub mod Schema
pub mod Compact
pub mod Client
pub mod Report
