-- ===== src/Fetch/Package/States.antt =====
-- Predicates on the states of packages.
use pkgsite.Prelude.{◌≡◌, ◌≢◌, ◌⊎◌, inl, inr, List, [], ◌∷◌, ◌++◌, Text}
use pkgsite.Fetch.Package.{PackageVersionState}

-- Some state tells of a failure.
abbrev pub HasFailed : List PackageVersionState → Type 0
HasFailed [] = ⊥
HasFailed (s ∷ ss) = (s.status ≢ 200) ⊎ HasFailed ss

abbrev pub AllOk : List PackageVersionState → Type 0
AllOk [] = Unit
AllOk (s ∷ ss) = (s.status ≡ 200) × AllOk ss

pub AllOk-HasFailed : (ss : List PackageVersionState) → AllOk ss → HasFailed ss → ⊥
AllOk-HasFailed [] h k = k
AllOk-HasFailed (s ∷ ss) h (inl n) = n h.0
AllOk-HasFailed (s ∷ ss) h (inr k) = AllOk-HasFailed ss h.1 k

-- A state tells that the package at a path failed.
abbrev pub FailedAt : List PackageVersionState → Text → Type 0
FailedAt [] p = ⊥
FailedAt (s ∷ ss) p = ((s.package_path ≡ p) × (s.status ≢ 200)) ⊎ FailedAt ss p

pub FailedAt-append :
    (us vs : List PackageVersionState) (p : Text)
    → FailedAt us p ⊎ FailedAt vs p
    → FailedAt (us ++ vs) p
FailedAt-append [] vs p (inl h) = absurd h
FailedAt-append [] vs p (inr h) = h
FailedAt-append (u ∷ us) vs p (inl (inl h)) = inl h
FailedAt-append (u ∷ us) vs p (inl (inr h)) = inr (FailedAt-append us vs p (inl h))
FailedAt-append (u ∷ us) vs p (inr h) = inr (FailedAt-append us vs p (inr h))
