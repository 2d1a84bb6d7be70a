-- ===== src/Frontend.antt =====
-- internal/frontend: pagination and the parsing of URL paths.
pub mod Paginate
pub mod UrlInfo
pub mod FetchServer
