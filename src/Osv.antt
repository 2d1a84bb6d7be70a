-- ===== src/Osv.antt =====
-- internal/osv: vulnerability entries, and which versions their ranges affect.
pub mod Affects
pub mod Fixed
use pkgsite.Prelude.{
  Bool, true, false, not, ◌&&◌, ◌||◌, List, [], ◌∷◌, ◌++◌, map, Text, codes, text_eq, is_empty,
  has_prefix, trim_prefix, if◌then◌else◌,
}
use pkgsite.Semver.{Semver, is_lt}

-- Exactly one of the two is meant to be present; "" is an absent one.
pub record RangeEvent : Type 0 where
  pub introduced : Text
  pub fixed : Text

pub record Range : Type 0 where
  pub type : Text
  pub events : List RangeEvent

pub record Module : Type 0 where
  pub path : Text
  pub ecosystem : Text

pub record Package : Type 0 where
  pub path : Text
  pub goos : List Text
  pub goarch : List Text
  pub symbols : List Text

pub record Affected : Type 0 where
  pub mod_info : Module
  pub ranges : List Range
  pub packages : List Package

-- The fields that the modelled code reads; the times, details, references and credits are left out.
pub record Entry : Type 0 where
  pub id : Text
  pub aliases : List Text
  pub summary : Text
  pub affected : List Affected

abbrev pub range_type_semver : Text
range_type_semver = codes "SEMVER"

abbrev pub go_std_module_path : Text
go_std_module_path = codes "stdlib"

abbrev pub go_cmd_module_path : Text
go_cmd_module_path = codes "toolchain"

-- The beginning of time.
abbrev pub zero_version : Text
zero_version = codes "0"

unfoldable pub canonicalize_semver : Text → Text
unfolding has_prefix trim_prefix
canonicalize_semver s =
    let t = trim_prefix s (codes "go") in if not (has_prefix t (codes "v")) then b'v' ∷ t else t

abbrev pub is_semver_range : Range → Bool
unfolding text_eq
is_semver_range r = text_eq r.type range_type_semver

-- A module path, or, for the standard library and the toolchain, the paths of the packages.
unfoldable pub affected_modules_and_packages : List Affected → List Text
unfolding text_eq
affected_modules_and_packages [] = []
affected_modules_and_packages (a ∷ as') =
    let rest = affected_modules_and_packages as' in
    if text_eq a.mod_info.path go_std_module_path || text_eq a.mod_info.path go_cmd_module_path
    then map (λ (p : Package). p.path) a.packages ++ rest
    else a.mod_info.path ∷ rest

module _ (semver : Semver) where
  unfoldable pub less_semver : Text → Text → Bool
  less_semver v1 v2 = is_lt (semver.cmp (canonicalize_semver v1) (canonicalize_semver v2))

  -- The version by which an event is sorted, when it is not the beginning of time.
  unfoldable pub event_version : RangeEvent → Text
  event_version e = if not (is_empty e.fixed) then e.fixed else e.introduced

  -- The function `less` that `containsSemver` hands to `sort.SliceStable`.
  unfoldable pub event_less : RangeEvent → RangeEvent → Bool
  unfolding less_semver event_version text_eq
  event_less e1 e2 =
      if text_eq e1.introduced zero_version
      then true
      else if text_eq e2.introduced zero_version
      then false
      else less_semver (event_version e1) (event_version e2)

  -- `sort.SliceStable` up to its block size of 20 elements: insertion from the right end of the
  -- sorted part, which is held here in reverse. A longer slice is sorted in blocks that are merged.
  unfoldable pub insert_event : RangeEvent → List RangeEvent → List RangeEvent
  insert_event e [] = e ∷ []
  insert_event e (x ∷ xs) = if event_less e x then x ∷ insert_event e xs else e ∷ x ∷ xs

  unfoldable pub sort_events : List RangeEvent → List RangeEvent → List RangeEvent
  unfolding insert_event
  sort_events sorted [] = sorted
  sort_events sorted (e ∷ es) = sort_events (insert_event e sorted) es

  unfoldable pub reverse_onto : List RangeEvent → List RangeEvent → List RangeEvent
  reverse_onto [] acc = acc
  reverse_onto (x ∷ xs) acc = reverse_onto xs (x ∷ acc)

  -- `semver.Compare(v, CanonicalizeSemver(w)) >= 0`, and the same with `<`; v is canonicalized.
  abbrev pub at_least : Text → Text → Bool
  at_least v w = not (is_lt (semver.cmp v (canonicalize_semver w)))

  -- One round of the loop over the sorted events.
  unfoldable pub scan_event : Text → RangeEvent → Bool → Bool
  unfolding text_eq
  scan_event v e affected =
      if not affected && not (is_empty e.introduced)
      then text_eq e.introduced zero_version || at_least v e.introduced
      else if affected && not (is_empty e.fixed)
      then not (at_least v e.fixed)
      else affected

  unfoldable pub scan_events : Text → List RangeEvent → Bool → Bool
  unfolding scan_event
  scan_events v [] affected = affected
  scan_events v (e ∷ es) affected = scan_events v es (scan_event v e affected)

  unfoldable pub contains_semver : Range → Text → Bool
  unfolding sort_events reverse_onto scan_events
  contains_semver ar v = if not (is_semver_range ar) then false else elim ar.events [
    | [] ↦ true
    | e ∷ es ↦ scan_events (canonicalize_semver v) (reverse_onto (sort_events [] (e ∷ es)) []) false
  ]

  -- The loop of `AffectsSemver`; the last argument is `semverRangePresent`.
  unfoldable pub affects_from : List Range → Text → Bool → Bool
  unfolding contains_semver
  affects_from [] v present = not present
  affects_from (r ∷ rs) v present =
      let skip = affects_from rs v present in
      let next = affects_from rs v true in
      if not (is_semver_range r) then skip else if contains_semver r v then true else next

  unfoldable pub affects_semver : List Range → Text → Bool
  unfolding affects_from
  affects_semver [] v = true
  affects_semver (r ∷ rs) v = affects_from (r ∷ rs) v false

  -- The two loops of `LatestFixedVersion` over the events of one range.
  unfoldable pub raise_fixed : List RangeEvent → Text → Text
  unfolding less_semver
  raise_fixed [] latest = latest
  raise_fixed (e ∷ es) latest =
      raise_fixed es
        (if not (is_empty e.fixed) && less_semver latest e.fixed then e.fixed else latest)

  unfoldable pub reintroduced : List RangeEvent → Text → Bool
  unfolding less_semver text_eq
  reintroduced [] latest = false
  reintroduced (e ∷ es) latest =
      (not (is_empty e.introduced)
        && not (text_eq e.introduced zero_version)
        && less_semver latest e.introduced)
      || reintroduced es latest

  -- The loop over the ranges; the second argument is `latestFixed`.
  unfoldable pub latest_fixed_from : List Range → Text → Text
  unfolding raise_fixed reintroduced text_eq
  latest_fixed_from [] latest = latest
  latest_fixed_from (r ∷ rs) latest =
      let raised = raise_fixed r.events latest in
      latest_fixed_from rs (
        if text_eq r.type range_type_semver
        then (if reintroduced r.events raised then [] else raised)
        else latest)

  unfoldable pub latest_fixed_version : List Range → Text
  unfolding latest_fixed_from
  latest_fixed_version ranges = latest_fixed_from ranges []
