-- ===== src/Requeue.antt =====
-- internal/postgres/requeue.go: the modules that are processed next. The database answers the query
-- with rows in its order, or with an error.
pub mod Limits
use pkgsite.Prelude.Int.{ℤ, pos, ltb_ℤ}
use pkgsite.Prelude.{
  ℕ, suc, Bool, false, ◌||◌, List, [], ◌∷◌, Text, Option, none, some, leb, ◌==◌, if◌then◌else◌,
}
use pkgsite.Derrors.{wrap}
use pkgsite.Worker.Fetch.Env.{Answer, ok, err}

-- `internal.ModuleVersionState`, as far as it is read.
pub record ModuleVersionState : Type 0 where
  pub module_path : Text
  pub version : Text
  pub status : ℕ
  pub num_packages : Option ℕ

abbrev pub large_module_package_threshold : ℕ
large_module_package_threshold = 1500

unfoldable pub is_large_or_zero : ModuleVersionState → Bool
is_large_or_zero m =
    (m.status == 0)
    || elim m.num_packages [ none ↦ false | some n ↦ leb large_module_package_threshold n ]

-- The loop over the rows, with the number of large modules and of those with status zero so far.
unfoldable pub limit_large : ℤ → ℕ → List ModuleVersionState → List ModuleVersionState
unfolding is_large_or_zero
limit_large limit n [] = []
limit_large limit n (m ∷ ms) =
    let n' = if is_large_or_zero m then suc n else n in
    let rest = limit_large limit n' ms in if ltb_ℤ limit (pos n') then [] else m ∷ rest

unfoldable pub get_next_modules_to_fetch :
    ℤ → Answer (List ModuleVersionState) → Answer (List ModuleVersionState)
unfolding limit_large
get_next_modules_to_fetch limit (err e) = err (wrap e)
get_next_modules_to_fetch limit (ok mvs) = ok (limit_large limit 0 mvs)
