-- ===== src/Semver.antt =====
-- golang.org/x/mod/semver, which the program calls and does not contain: its functions are a
-- parameter, and what its documentation says of them are named laws. `Compare` returns an int that
-- the program only compares with 0; here it is an `Ordering`.
mod Laws
pub mod Toy
pub use Laws.*
