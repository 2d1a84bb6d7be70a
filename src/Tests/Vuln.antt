-- ===== src/Tests/Vuln.antt =====
-- Examples of internal/osv and internal/vuln.
use pkgsite.Prelude.{
  none, false, List, [], ◌∷◌, some, codes, ◌≡◌, ◌↔◌, refl, arith, inl, inr, All, In, text_eq,
}
use mathlib.Core.List.{Perm}
use pkgsite.Semver.Toy.{toy, toy-IsOrdered, rank}
use pkgsite.Osv.{
  RangeEvent, Range, Entry, Affected, range_type_semver, contains_semver, canonicalize_semver,
  latest_fixed_version, less_semver, event_less,
}
use pkgsite.Osv.Affects.{IsSorted, contains_semver-last, last_status}
use pkgsite.Osv.Fixed.{FixedBy, ClosedBy, latest_fixed_version-max}
use pkgsite.Vuln.Schema.{
  end, missing, item, Stream, broken, found, ModuleVuln, ModuleMeta, Database, PackageRequest,
}
use pkgsite.Vuln.Client.{by_package, is_affected}
use pkgsite.Vuln.Client.Lookup.{IsUnfixed, by_package-In}
use pkgsite.Vuln.Client.Matches.{IsAffectedBy}
use pkgsite.Vuln.Compact.{slices_compact}
use pkgsite.Vuln.Compact.Dedup.{changes, slices_compact-changes}

abbrev introduced : RangeEvent
introduced = record { introduced = codes "1.2.0"; fixed = [] }

abbrev fixed : RangeEvent
fixed = record { introduced = []; fixed = codes "1.2.5" }

abbrev a_range : Range
a_range = record { type = range_type_semver; events = fixed ∷ introduced ∷ [] }

contains_semver-last_example :
    (es : List RangeEvent) × Perm es a_range.events
    × IsSorted toy es
    × (contains_semver toy a_range (codes "1.2.3")
        ≡ last_status toy (canonicalize_semver (codes "1.2.3")) es false)
unfolding text_eq
contains_semver-last_example =
    contains_semver-last toy toy-IsOrdered a_range (codes "1.2.3") refl (λ h. ground arith)
      (inl (refl, refl), (inr (refl, refl), tt)) (inr (refl, tt), (inr tt, tt))

fix_of_range : latest_fixed_version toy (a_range ∷ []) ≡ codes "1.2.5"
unfolding latest_fixed_version less_semver canonicalize_semver text_eq rank
fix_of_range = refl

latest_fixed_version-max_example :
    All (FixedBy toy (latest_fixed_version toy (a_range ∷ []))) a_range.events
    × All (ClosedBy toy (latest_fixed_version toy (a_range ∷ []))) a_range.events
unfolding text_eq
latest_fixed_version-max_example =
    latest_fixed_version-max toy toy-IsOrdered a_range refl (λ h. ground (arith, fix_of_range))

abbrev an_entry : Entry
an_entry = record {
  id = codes "GO-1";
  aliases = [];
  summary = [];
  affected =
      record {
        mod_info = record { path = codes "m.com"; ecosystem = codes "Go" };
        ranges = a_range ∷ [];
        packages = [];
      }
      ∷ [];
}

abbrev a_vuln : ModuleVuln
a_vuln = record { id = codes "GO-1"; fixed = codes "1.2.5" }

abbrev a_module : ModuleMeta
a_module = record { path = codes "m.com"; vulns = a_vuln ∷ [] }

-- The index is broken behind the module.
abbrev index : Stream ModuleMeta
index = item (record { path = codes "a.com"; vulns = [] }) (item a_module broken)

abbrev a_database : Database
a_database = record { modules = some index; vulns = none; entry = λ id. found an_entry }

abbrev request : PackageRequest
request = record { mod_path = codes "m.com"; package_path = []; version = codes "1.2.3" }

by_package-In_example : In an_entry (an_entry ∷ []) ↔ (
    (v : ModuleVuln) × In v a_module.vulns
    × IsUnfixed toy (codes "1.2.3") v
    × (a_database.entry v.id ≡ found an_entry)
    × ((a : Affected) × In a an_entry.affected × IsAffectedBy toy request a))
unfolding by_package text_eq is_affected rank canonicalize_semver event_less
by_package-In_example =
    by_package-In toy a_database request {index = index} {m = a_module} {es = an_entry ∷ []} refl
      refl refl an_entry

slices_compact-changes_example :
    slices_compact (codes "b" ∷ codes "b" ∷ codes "a" ∷ [])
    ≡ codes "b" ∷ changes (codes "b") (codes "b" ∷ codes "a" ∷ [])
slices_compact-changes_example = slices_compact-changes (codes "b") (codes "b" ∷ codes "a" ∷ [])

-- Two vulnerabilities, one without a file.
abbrev two_ids : Database
two_ids = record {
  modules = none;
  vulns = some (
      item (record { id = codes "GO-1"; aliases = [] })
        (item (record { id = codes "GO-2"; aliases = [] }) end));
  entry = λ id. missing;
}
