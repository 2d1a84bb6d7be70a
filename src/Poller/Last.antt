-- ===== src/Poller/Last.antt =====
-- What a poller holds after its goroutine has handled some events.
use pkgsite.Prelude.{ℕ, suc, ◌+◌, List, [], ◌∷◌, none, some, ◌≡◌, refl, arith, ◌∙◌}
use pkgsite.Poller.{Poller, Event, tick, done, poll, run}

module _ {ℓ} {A : Type ℓ} where
  -- The last value got before the context's end, or else the given one.
  abbrev pub last_got : A → List (Event A) → A
  last_got a [] = a
  last_got a (done ∷ es) = a
  last_got a (tick none ∷ es) = last_got a es
  last_got a (tick (some b) ∷ es) = last_got b es

  -- How many polls failed before the context's end.
  abbrev pub failed : List (Event A) → ℕ
  failed [] = 0
  failed (done ∷ es) = 0
  failed (tick none ∷ es) = suc (failed es)
  failed (tick (some b) ∷ es) = failed es

  -- `Current` is the last value that the getter gave without an error before the context ended, or
  -- the value before, and `onError` is called once for each error.
  pub run_lem :
      (es : List (Event A)) (p : Poller A)
      → ((run es p).current ≡ last_got p.current es) × ((run es p).errors ≡ p.errors + failed es)
  unfolding run poll
  run_lem [] p = (refl, omega arith)
  run_lem (done ∷ es) p = (refl, omega arith)
  run_lem (tick none ∷ es) p = let ih = run_lem es (poll none p) in (ih.0, ih.1 ∙ omega arith)
  run_lem (tick (some b) ∷ es) p = run_lem es (poll (some b) p)
