-- ===== src/Fetch.antt =====
-- internal/fetch: a module's contents are loaded from the file system of its zip file. go/parser,
-- go/build, io/fs and golang.org/x/mod are parameters, and so are the parts of internal/godoc.
pub mod Files
pub mod Load
pub mod Package
pub mod Unit
pub mod Readme
pub mod Module
pub mod Result
pub mod Accounts
pub mod Whole
