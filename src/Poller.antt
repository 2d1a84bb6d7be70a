-- ===== src/Poller.antt =====
-- internal/poller/poller.go: a value that is refreshed by polling. The getter's calls are a list of
-- outcomes, `none` for an error; the mutex makes each access one step. The state keeps what
-- `onError` has been called with as a count.
pub mod Last
use pkgsite.Prelude.{ℕ, ◌+◌, List, [], ◌∷◌, Option, none, some}

pub record Poller {ℓ} (A : Type ℓ) : Type ℓ where
  pub current : A
  pub errors : ℕ

-- What the goroutine of `Start` receives: a tick, with what the getter then returns, or the end of
-- the context.
pub data Event {ℓ} (A : Type ℓ) : Type ℓ where
  tick : Option A → Event A
  done : Event A

module _ {ℓ} {A : Type ℓ} where
  unfoldable pub new : A → Poller A
  new initial = record { current = initial; errors = 0 }

  -- `Poll`, given what the getter returns.
  unfoldable pub poll : Option A → Poller A → Poller A
  poll none p = record p { errors = p.errors + 1 }
  poll (some next) p = record p { current = next }

  -- The goroutine of `Start`: a tick polls, and the context's end stops it.
  unfoldable pub run : List (Event A) → Poller A → Poller A
  unfolding poll
  run [] p = p
  run (tick got ∷ es) p = run es (poll got p)
  run (done ∷ es) p = p
