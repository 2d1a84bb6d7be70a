-- ===== src/Fetch/Accounts.antt =====
-- The result of a fetch: its status, and that no unit is lost.
use pkgsite.Prelude.{
  ℕ, true, ◌≡◌, ◌≢◌, ◌<◌, ◌↔◌, refl, ◌⊎◌, inl, inr, List, [], ◌∷◌, ◌++◌, Text, Option, none, some,
  arith, In, Bool-cases, sym,
}
use mathlib.Core.Path.{subst}
use pkgsite.Derrors.{Error, Code, codes_table, status_of, to_status}
use pkgsite.Fetch.Files.{ContentDir}
use pkgsite.Fetch.Module.{Tools, LazyModule}
use pkgsite.Fetch.Package.{PackageVersionState}
use pkgsite.Fetch.Package.States.{HasFailed, AllOk, AllOk-HasFailed, FailedAt, FailedAt-append}
use pkgsite.Fetch.Result.Gives.{IsLoaded, unit-Gives}
use pkgsite.Fetch.Result.{
  Collected, append_option, unit, collect_unit, collect_units, at_least_ok, status_with_states,
  finish_result,
}
use pkgsite.Fetch.Unit.{UnitMeta, ModuleUnit, is_package}
use pkgsite.Worker.Fetch.Status.{Agree, to_status-ne}

status_with_states-290 : (ss : List PackageVersionState) → status_with_states 290 ss ≡ 290
unfolding status_with_states
status_with_states-290 [] = refl
status_with_states-290 (s ∷ ss) = ground (arith, status_with_states-290 ss)

status_with_states_cases :
    (n : ℕ) (ss : List PackageVersionState)
    → (HasFailed ss × (status_with_states n ss ≡ 290)) ⊎ (AllOk ss × (status_with_states n ss ≡ n))
unfolding status_with_states
status_with_states_cases n [] = inr (tt, refl)
status_with_states_cases n (s ∷ ss) =
    ground (arith, status_with_states-290 ss, status_with_states_cases n ss)

abbrev Positive : List Code → Type 0
Positive [] = Unit
Positive (c ∷ cs) = (0 < c.code) × Positive cs

status_of-Positive : (e : Error) (cs : List Code) → Positive cs → 0 < status_of e cs
unfolding status_of
status_of-Positive e [] h = omega arith
status_of-Positive e (c ∷ cs) h = ground (arith, status_of-Positive e cs)

pub to_status-positive : (e : Error) → 0 < to_status (some e)
unfolding to_status codes_table
to_status-positive e = status_of-Positive e codes_table (omega arith)

-- A unit of a kind is among the units.
abbrev pub UnitAt : (ModuleUnit → Type 0) → List ModuleUnit → Type 0
UnitAt R [] = ⊥
UnitAt R (u ∷ us) = R u ⊎ UnitAt R us

-- A unit of the kind is in the result, or a state tells that the package of a path failed.
abbrev pub Accounted : (ModuleUnit → Type 0) → Text → Collected → Type 0
Accounted R p (units, states, error) = UnitAt R units ⊎ FailedAt states p

UnitAt-append :
    (R : ModuleUnit → Type 0) (us vs : List ModuleUnit)
    → UnitAt R us ⊎ UnitAt R vs
    → UnitAt R (us ++ vs)
UnitAt-append R [] vs (inl h) = absurd h
UnitAt-append R [] vs (inr h) = h
UnitAt-append R (u ∷ us) vs (inl (inl h)) = inl h
UnitAt-append R (u ∷ us) vs (inl (inr h)) = inr (UnitAt-append R us vs (inl h))
UnitAt-append R (u ∷ us) vs (inr h) = inr (UnitAt-append R us vs (inr h))

UnitAt-append_option :
    (R : ModuleUnit → Type 0) (us : List ModuleUnit) (u : Option ModuleUnit)
    → UnitAt R us
    → UnitAt R (append_option us u)
UnitAt-append_option R us none h = h
UnitAt-append_option R us (some u) h = UnitAt-append R us (u ∷ []) (inl h)

FailedAt-append_option :
    (us : List PackageVersionState) (u : Option PackageVersionState) (p : Text)
    → FailedAt us p
    → FailedAt (append_option us u) p
FailedAt-append_option us none p h = h
FailedAt-append_option us (some u) p h = FailedAt-append us (u ∷ []) p (inl h)

module _ (tools : Tools) (lm : LazyModule) (cd : ContentDir) where
  unit-is_package :
      (um : UnitMeta) {s : PackageVersionState}
      → (unit tools lm cd um).1 ≡ some s
      → is_package um ≡ true
  unfolding unit
  unit-is_package um h = ground arith

  collect_unit-some :
      (c : Collected) (um : UnitMeta) {e : Error}
      → (unit tools lm cd um).2 ≡ some e
      → (collect_unit tools lm cd c um).2 ≢ none
  unfolding collect_unit
  collect_unit-some c um h = ground arith

  collect_unit-keeps :
      (R : ModuleUnit → Type 0) (c : Collected) (um : UnitMeta) (p : Text)
      → Accounted R p c
      → Accounted R p (collect_unit tools lm cd c um)
  unfolding collect_unit
  collect_unit-keeps R (us, ss, e) um p (inl h) =
      inl (UnitAt-append_option R us (unit tools lm cd um).0 h)
  collect_unit-keeps R (us, ss, e) um p (inr h) = elim (Bool-cases (is_package um)) [
    | inl y ↦ rw y (inr (FailedAt-append_option ss (unit tools lm cd um).1 p h))
    | inr n ↦ rw n (inr h)
  ]

  collect_unit-adds :
      (c : Collected) (um : UnitMeta)
      → is_package um ≡ true
      → (collect_unit tools lm cd c um).2 ≡ none
      → Accounted (IsLoaded tools lm cd um.path) um.path (collect_unit tools lm cd c um)
  unfolding collect_unit
  collect_unit-adds (us, ss, e) um b h = elim (unit-Gives tools lm cd um) [
    | inl (f, q) ↦ absurd (collect_unit-some (us, ss, e) um q h)
    | inr (inl (q, v, w, e)) ↦
        inl (rw w (UnitAt-append (IsLoaded tools lm cd um.path) us (v ∷ []) (inr (inl (e b)))))
    | inr (inr (q, s, w, e, n)) ↦
        inr (rw (unit-is_package um w, w) (FailedAt-append ss (s ∷ []) um.path (inr (inl (e, n)))))
  ]

  collect_unit-none :
      (c : Collected) (um : UnitMeta) → (collect_unit tools lm cd c um).2 ≡ none → c.2 ≡ none
  unfolding collect_unit
  collect_unit-none (us, ss, e) um h = ground arith

  collect_units-none :
      (c : Collected) (ums : List UnitMeta)
      → (collect_units tools lm cd c ums).2 ≡ none
      → c.2 ≡ none
  unfolding collect_units
  collect_units-none c [] h = h
  collect_units-none c (um ∷ ums) h =
      collect_unit-none c um (collect_units-none (collect_unit tools lm cd c um) ums h)

  pub collect_units-keeps :
      (R : ModuleUnit → Type 0) (c : Collected) (ums : List UnitMeta) (p : Text)
      → Accounted R p c
      → Accounted R p (collect_units tools lm cd c ums)
  unfolding collect_units
  collect_units-keeps R c [] p h = h
  collect_units-keeps R c (um ∷ ums) p h =
      collect_units-keeps R (collect_unit tools lm cd c um) ums p (collect_unit-keeps R c um p h)

  collect_unit-states :
      (c : Collected) (um : UnitMeta) (p : Text)
      → FailedAt c.1 p
      → FailedAt (collect_unit tools lm cd c um).1 p
  unfolding collect_unit
  collect_unit-states (us, ss, e) um p h = elim (Bool-cases (is_package um)) [
    | inl y ↦ rw y (FailedAt-append_option ss (unit tools lm cd um).1 p h)
    | inr n ↦ rw n h
  ]

  pub collect_units-states :
      (c : Collected) (ums : List UnitMeta) (p : Text)
      → FailedAt c.1 p
      → FailedAt (collect_units tools lm cd c ums).1 p
  unfolding collect_units
  collect_units-states c [] p h = h
  collect_units-states c (um ∷ ums) p h =
      collect_units-states (collect_unit tools lm cd c um) ums p (collect_unit-states c um p h)

  pub collect_units-Accounted :
      (c : Collected) (ums : List UnitMeta) (um : UnitMeta)
      → (collect_units tools lm cd c ums).2 ≡ none
      → is_package um ≡ true
      → In um ums
      → Accounted (IsLoaded tools lm cd um.path) um.path (collect_units tools lm cd c ums)
  unfolding collect_units
  collect_units-Accounted c [] um h b m = absurd m
  collect_units-Accounted c (u ∷ ums) um h b (inl e) =
      subst
        (λ v.
          Accounted (IsLoaded tools lm cd v.path) v.path (collect_units tools lm cd c (u ∷ ums)))
        (sym e)
        (collect_units-keeps (IsLoaded tools lm cd u.path) (collect_unit tools lm cd c u) ums u.path
          (collect_unit-adds c u (subst (λ v. is_package v ≡ true) e b)
            (collect_units-none (collect_unit tools lm cd c u) ums h)))
  collect_units-Accounted c (u ∷ ums) um h b (inr m) =
      collect_units-Accounted (collect_unit tools lm cd c u) ums um h b m

  pub finish_result-200 :
      (c : Collected)
      → ((finish_result lm c).status ≡ 200)
        ↔ (((finish_result lm c).error ≡ none) × AllOk (finish_result lm c).states)
  unfolding finish_result
  finish_result-200 (us, ss, none) =
      ground (arith, status_with_states_cases 200 ss, AllOk-HasFailed ss)
  finish_result-200 (us, ss, some e) = ground (
    arith,
    status_with_states_cases (at_least_ok (to_status (some e))) ss,
    to_status-positive e,
    to_status-ne e,
  )

  pub finish_result-Agree :
      (c : Collected) → Agree (finish_result lm c).status (finish_result lm c).error
  unfolding finish_result
  finish_result-Agree (us, ss, none) = ground (arith, status_with_states_cases 200 ss)
  finish_result-Agree (us, ss, some e) = ground (
    arith,
    status_with_states_cases (at_least_ok (to_status (some e))) ss,
    to_status-positive e,
    to_status-ne e,
  )
