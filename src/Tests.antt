-- ===== src/Tests.antt =====
-- Examples: every property with hypotheses, applied to a concrete input.
mod Worker
mod Vuln
mod Version
mod Lru
mod Site
mod Codec
mod Fetching
mod Symbol
mod Queue
mod Latest
mod Modules
mod Source
mod Middleware
