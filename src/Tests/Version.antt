-- ===== src/Tests/Version.antt =====
-- Examples of internal/version.
use pkgsite.Prelude.{
  Bool, true, false, List, [], ◌∷◌, Text, Option, some, codes, ◌≡◌, ◌⊎◌, refl, arith, In,
}
use pkgsite.Semver.Toy.{toy, rank, toy-IsOrdered}
use pkgsite.Version.{
  later, latest_of, latest_from, remove_if, latest_version, is_incompatible, is_pseudo, compatible,
}
use pkgsite.Version.Latest.{IsCompatible, IsLatest, IsLatestCompatible, latest_version-cases}

abbrev some_versions : List Text
some_versions = codes "v1.2.3" ∷ codes "v1.4.0-rc.1" ∷ codes "v1.3.0" ∷ []

abbrev with_incompatible : List Text
with_incompatible = codes "v1.2.3" ∷ codes "v2.0.0+incompatible" ∷ codes "v1.3.0" ∷ []

abbrev has_mod : Text → Option Bool
has_mod v = some true

abbrev TheCases : Type 0
TheCases =
    (IsLatest toy with_incompatible has_mod (codes "v1.3.0")
      × ((is_incompatible (codes "v1.3.0") ≡ false)
          ⊎ ((w : Text) → In w with_incompatible → IsCompatible toy with_incompatible has_mod w → ⊥)
          ⊎ IsLatestCompatible toy with_incompatible has_mod []
          ⊎ ((c : Text) × IsLatestCompatible toy with_incompatible has_mod c
              × (has_mod c ≡ some false))))
    ⊎ (((b : Text) × IsLatest toy with_incompatible has_mod b × (is_incompatible b ≡ true))
        × IsLatestCompatible toy with_incompatible has_mod (codes "v1.3.0")
        × (has_mod (codes "v1.3.0") ≡ some true))

latest_version-cases_example : TheCases
unfolding latest_version latest_of later is_incompatible is_pseudo rank latest_from compatible
    remove_if
latest_version-cases_example =
    latest_version-cases toy with_incompatible has_mod toy-IsOrdered (codes "v1.3.0")
      (λ h. ground arith) refl
