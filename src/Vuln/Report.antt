-- ===== src/Vuln/Report.antt =====
-- internal/vuln/vulns.go: what the pages show of a vulnerability.
use pkgsite.Prelude.{
  Bool, true, not, ◌&&◌, List, [], ◌∷◌, ◌++◌, map, Text, codes, text_eq, is_empty, Option, none,
  some, has_prefix, split, join, if◌then◌else◌,
}
use pkgsite.Osv.{
  RangeEvent, Range, Package, Affected, Entry, is_semver_range, go_std_module_path,
  go_cmd_module_path, zero_version,
}
use pkgsite.Semver.{Semver}
use pkgsite.Stdlib
use pkgsite.Version.{is_pseudo}
use pkgsite.Vuln.Client.{by_package}
use pkgsite.Vuln.Schema.{Database, ok, err}

-- A problem with the database is shown as a vulnerability with no id.
pub data Vuln : Type 0 where
  vuln : Text → Text → Vuln
  trouble : Vuln

abbrev pub to_vulns : List Entry → List Vuln
to_vulns = map (λ (e : Entry). vuln e.id e.summary)

module _ (semver : Semver) where
  -- The database's name of the module whose entries are asked for.
  unfoldable pub vuln_module : Text → Text → Text
  unfolding text_eq has_prefix
  vuln_module module_path package_path =
      if text_eq module_path Stdlib.module_path
      then (if has_prefix package_path (codes "cmd/")
          then go_cmd_module_path
          else go_std_module_path)
      else module_path

  -- The first argument is the client, which may be nil.
  unfoldable pub vulns_for_package : Option Database → Text → Text → Text → List Vuln
  unfolding vuln_module by_package is_pseudo
  vulns_for_package none module_path version package_path = []
  vulns_for_package (some db) module_path version package_path =
      if text_eq module_path Stdlib.module_path && is_pseudo version
      then []
      else elim (by_package db semver (record {
        mod_path = vuln_module module_path package_path;
        package_path = package_path;
        version = version;
      })) [ err e ↦ trouble ∷ [] | ok entries ↦ to_vulns entries ]

pub record Pair : Type 0 where
  pub intro : Text
  pub fixed : Text

abbrev pub no_pair : Pair
no_pair = record { intro = []; fixed = [] }

-- One round of the loop of `collectRangePairs`: the variables ps and p.
unfoldable pub collect_event : Text → Bool → RangeEvent → List Pair × Pair → List Pair × Pair
unfolding text_eq
collect_event prefix is_semver e (ps, p) =
    let start = if text_eq e.introduced zero_version then [] else e.introduced in
    let shown = if is_semver && not (is_empty start) then prefix ++ start else start in
    let p' = if not (is_empty e.introduced) then record p { intro = shown } else p in
    let fix = if is_semver then prefix ++ e.fixed else e.fixed in
    if not (is_empty e.fixed) then (ps ++ record p' { fixed = fix } ∷ [], no_pair) else (ps, p')

unfoldable pub collect_events : Text → Bool → List RangeEvent → List Pair × Pair → List Pair × Pair
unfolding collect_event
collect_events prefix is_semver [] st = st
collect_events prefix is_semver (e ∷ es) st =
    collect_events prefix is_semver es (collect_event prefix is_semver e st)

unfoldable pub collect_ranges : Text → List Range → List Pair × Pair → List Pair × Pair
unfolding collect_events
collect_ranges prefix [] st = st
collect_ranges prefix (r ∷ rs) st =
    collect_ranges prefix rs (collect_events prefix (is_semver_range r) r.events st)

unfoldable pub collect_range_pairs : Affected → List Pair
unfolding collect_ranges Stdlib.contains
collect_range_pairs a =
    (collect_ranges (if Stdlib.contains a.mod_info.path then codes "go" else codes "v") a.ranges
      ([], no_pair)).0

unfoldable pub show_pair : Pair → Text
show_pair p =
    if is_empty p.intro && is_empty p.fixed
    then []
    else if is_empty p.intro
    then codes "before " ++ p.fixed
    else if is_empty p.fixed
    then p.intro ++ codes " and later"
    else codes "from " ++ (p.intro ++ (codes " before " ++ p.fixed))

pub record AffectedPackage : Type 0 where
  pub package_path : Text
  pub versions : Text
  pub symbols : List Text

-- `token.IsExported` of package go/token is a parameter.
module _ (is_exported : Text → Bool) where
  unfoldable pub all_exported : List Text → Bool
  all_exported [] = true
  all_exported (p ∷ ps) = is_exported p && all_exported ps

  unfoldable pub exported_symbols : List Text → List Text
  unfolding all_exported split
  exported_symbols [] = []
  exported_symbols (s ∷ ss) =
      if all_exported (split s b'.') then s ∷ exported_symbols ss else exported_symbols ss

  unfoldable pub affected_packages : List Affected → List AffectedPackage
  unfolding collect_range_pairs show_pair exported_symbols join
  affected_packages [] = []
  affected_packages (a ∷ as') =
      map
        (λ (p : Package). record {
          package_path = p.path;
          versions = join (map show_pair (collect_range_pairs a)) (codes ", ");
          symbols = exported_symbols p.symbols;
        })
        a.packages
      ++ affected_packages as'
