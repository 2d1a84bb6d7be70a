-- ===== src/Latest/Cooked.antt =====
-- What `LatestModuleVersions` returns: the cooked version is not retracted.
use pkgsite.Prelude.{
  Bool, true, false, List, [], Text, Option, none, some, ◌⊎◌, ◌≡◌, In, All, codes, ◌++◌,
}
use pkgsite.Latest.{ModFile, LatestModuleVersions, is_retracted, Proxy, Found, found}
use pkgsite.Semver.{Semver}
use pkgsite.Stdlib
use pkgsite.Version.{latest_version}

module _ (semver : Semver) (parse_lax : Text → Option ModFile) (module_path : Text)
    (proxy : Proxy) where
  abbrev pub retracted : LatestModuleVersions → Text → Bool
  retracted l v = (is_retracted semver l.go_mod_file.retract v).0

  -- The cooked version is one of the versions and not retracted, or there is none, as all are
  -- retracted.
  abbrev pub IsCooked : List Text → LatestModuleVersions → Type 0
  IsCooked vs l =
      ((l.cooked_version ≡ []) × All (λ v. retracted l v ≡ true) vs)
      ⊎ (In l.cooked_version vs × (retracted l l.cooked_version ≡ false))

  -- The go.mod file is the one that the proxy has for the raw version, or a minimal one.
  abbrev pub ReadsRaw : LatestModuleVersions → Type 0
  ReadsRaw l =
      (bytes : Text) × ((proxy.mod_file l.raw_version ≡ some bytes)
        ⊎ ((proxy.mod_file l.raw_version ≡ none) × (bytes ≡ codes "module " ++ module_path)))
      × (parse_lax bytes ≡ some l.go_mod_file)

  -- The raw version is the latest one, with its go.mod file.
  abbrev pub IsRaw : List Text → (Text → Option Bool) → LatestModuleVersions → Type 0
  IsRaw vs asks l =
      In l.raw_version vs × (latest_version semver vs asks ≡ some l.raw_version) × ReadsRaw l

  abbrev Cooks : List Text → (Text → Option Bool) → Found → Type 0
  Cooks vs asks (found l) = IsRaw vs asks l × IsCooked vs l
  Cooks vs asks _ = Unit
