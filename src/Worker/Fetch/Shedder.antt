-- ===== src/Worker/Fetch/Shedder.antt =====
-- The load shedder over a whole fetch.
use pkgsite.Prelude.{
  ℕ, ◌<◌, Text, Option, none, some, ◌≡◌, refl, arith, text_eq, Bool-cases, inl, inr,
}
use pkgsite.Paths.{unknown_module_path}
use pkgsite.Semver.{Semver}
use pkgsite.Worker.Fetch.Env.{Answer, ok, err, Env}
use pkgsite.Worker.Fetch.Insert.{maybe_shed}
use pkgsite.Worker.Fetch.Update.{release_all, after_info, fetch_and_update_state}
use pkgsite.Worker.LoadShedder.{LoadShedder, u64_mod}
use pkgsite.Worker.LoadShedder.Bounded.{IsWord, release-should_shed, should_shed_shed}

-- The same load in progress: `stats` differ only in the totals.
abbrev pub SameLoad : LoadShedder → Option LoadShedder → Type 0
SameLoad ls none = ⊥
SameLoad ls (some ls') =
    (ls'.size_in_flight ≡ ls.size_in_flight) × (ls'.requests_in_flight ≡ ls.requests_in_flight)

-- The sizes that the proxy reports are uint64.
abbrev pub SizesFit : Env → Type 0
SizesFit env =
    (path version : Text) (size : ℕ) → env.zip_size path version ≡ ok size → size < u64_mod

module _ (env : Env) (fits : SizesFit env) (ls : LoadShedder) (w : IsWord ls) where
  shed_then_release :
      (path version : Text)
      → SameLoad ls (
          release_all
            (maybe_shed env (some ls) path version).0.0
            (maybe_shed env (some ls) path version).1)
  unfolding maybe_shed release_all
  shed_then_release path version = go (env.zip_size path version) refl
    where
      go :
          (a : Answer ℕ)
          → env.zip_size path version ≡ a
          → SameLoad ls (
              release_all
                (maybe_shed env (some ls) path version).0.0
                (maybe_shed env (some ls) path version).1)
      go (err e) h = rw (h, maybe_shed) (refl, refl)
      go (ok size) h = ground (
        arith,
        fits path version size h,
        release-should_shed size env.db_info ls,
        should_shed_shed size env.db_info ls,
      )

  -- However a fetch ends, the load in progress is afterwards what it was before. The load
  -- shedder's counters are in range, and the sizes that the proxy reports fit a uint64.
  pub fetch_and_update_state-SameLoad :
      (semver : Semver) (path requested : Text)
      → SameLoad ls (fetch_and_update_state env semver (some ls) path requested).1
  unfolding fetch_and_update_state
  fetch_and_update_state-SameLoad semver path requested =
      elim (Bool-cases (text_eq path unknown_module_path)) [
        | inl h ↦ rw (h, fetch_and_update_state) (refl, refl)
        | inr h ↦ rw (h, fetch_and_update_state) (go (env.get_info path requested) refl)
      ]
    where
      go :
          (a : Answer Text)
          → env.get_info path requested ≡ a
          → SameLoad ls (after_info env semver (some ls) path requested).1
      go (err e) h = rw (h, after_info) (refl, refl)
      go (ok version) h = rw (h, after_info) (shed_then_release path version)
