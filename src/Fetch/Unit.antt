-- ===== src/Fetch/Unit.antt =====
-- internal/fetch/unit.go: the units of a module, one for each directory with a package in it or
-- below it. `package_info` is the license detector's `PackageInfo`.
pub mod Closed
pub mod Least
use pkgsite.Prelude.{
  ℕ, zero, suc, Bool, not, List, [], ◌∷◌, Text, Option, none, some, codes, text_eq, length, ltb,
  if◌then◌else◌,
}
use pkgsite.Prelude.Int.{ltb_ℤ, pos}
use pkgsite.Fetch.Load.{PackageMeta}
use pkgsite.Licenses.{License}
use pkgsite.Paths.{suffix}
use pkgsite.Paths.Candidates.Dir.{dir}
use pkgsite.Stdlib
use pkgsite.Stdlib.{mem_text}
use pkgsite.Symbol.{BuildContext, compare_build_contexts}

pub record UnitMeta : Type 0 where
  pub path : Text
  pub name : Text

unfoldable pub is_package : UnitMeta → Bool
unfolding text_eq
is_package um = not (text_eq um.name [])

pub record Readme : Type 0 where
  pub filepath : Text
  pub contents : Text

-- `goPackage`, with the build contexts of its documents; `too_large` says that its error has
-- `godoc.ErrTooLarge` in its chain.
pub record GoPackage : Type 0 where
  pub path : Text
  pub name : Text
  pub imports : List Text
  pub docs : List BuildContext
  pub too_large : Bool

-- `internal.Unit`, as far as it is set here.
pub record ModuleUnit : Type 0 where
  pub unit_meta : UnitMeta
  pub licenses : List License
  pub is_redistributable : Bool
  pub readme : Option Readme
  pub imports : List Text
  pub documentation : List BuildContext
  pub build_contexts : List BuildContext

-- `sort.Slice` by `CompareBuildContexts`, which finds equal only what is the same.
unfoldable pub insert_context : BuildContext → List BuildContext → List BuildContext
unfolding compare_build_contexts
insert_context c [] = c ∷ []
insert_context c (d ∷ ds) =
    if ltb_ℤ (compare_build_contexts d c) (pos 0) then d ∷ insert_context c ds else c ∷ d ∷ ds

unfoldable pub sort_contexts : List BuildContext → List BuildContext
unfolding insert_context
sort_contexts [] = []
sort_contexts (c ∷ cs) = insert_context c (sort_contexts cs)

-- The directory that the detector is asked about.
unfoldable pub unit_suffix : Text → Text → Text
unfolding suffix text_eq
unit_suffix module_path path =
    if text_eq module_path Stdlib.module_path then path else suffix path module_path

unfoldable pub module_unit :
    (Text → Bool × List License) → Text → UnitMeta → Option GoPackage → Option Readme → ModuleUnit
unfolding unit_suffix sort_contexts
module_unit package_info module_path um pkg readme =
    let info = package_info (unit_suffix module_path um.path) in
    elim pkg [
      | none ↦ record {
        unit_meta = um;
        licenses = info.1;
        is_redistributable = info.0;
        readme = readme;
        imports = [];
        documentation = [];
        build_contexts = [];
      }
      | some p ↦ record {
        unit_meta = record um { name = p.name };
        licenses = info.1;
        is_redistributable = info.0;
        readme = readme;
        imports = p.imports;
        documentation = p.docs;
        build_contexts = sort_contexts p.docs;
      }
    ]

-- The map `pkgLookup`: the last package with the path counts.
unfoldable pub package_lookup : List PackageMeta → Text → Option PackageMeta
unfolding text_eq
package_lookup [] path = none
package_lookup (pkg ∷ pkgs) path = elim (package_lookup pkgs path) [
  | some p ↦ some p
  | none ↦ if text_eq pkg.path path then some pkg else none
]

abbrev pub name_or_empty : Option PackageMeta → Text
name_or_empty none = []
name_or_empty (some p) = p.name

unfoldable pub should_continue : Text → Text → Bool
unfolding text_eq
should_continue module_path p =
    if text_eq module_path Stdlib.module_path
    then not (text_eq p (codes "."))
    else ltb (length module_path) (length p)

-- A key of the map `pathSet`.
unfoldable pub add_path : Text → List Text → List Text
unfolding mem_text
add_path p paths = if mem_text p paths then paths else p ∷ paths

-- The inner loop, from p up: `none` is a fuel that runs out.
unfoldable pub add_ancestors : ℕ → Text → Text → List Text → Option (List Text)
unfolding should_continue add_path dir
add_ancestors zero module_path p paths = if should_continue module_path p then none else some paths
add_ancestors (suc fuel) module_path p paths =
    let rest = add_ancestors fuel module_path (dir p) (add_path p paths) in
    if should_continue module_path p then rest else some paths

unfoldable pub add_packages : Text → List PackageMeta → List Text → Option (List Text)
unfolding add_ancestors
add_packages module_path [] paths = some paths
add_packages module_path (pkg ∷ pkgs) paths =
    elim (add_ancestors (suc (length pkg.path)) module_path pkg.path paths) [
      | none ↦ none
      | some paths' ↦ add_packages module_path pkgs paths'
    ]

-- The keys of the map come in some order, which is left as they were added.
unfoldable pub unit_paths : Text → List PackageMeta → Option (List Text)
unfolding add_packages
unit_paths module_path pkgs = add_packages module_path pkgs (module_path ∷ [])

abbrev pub metas_at : List PackageMeta → List Text → List UnitMeta
metas_at pkgs [] = []
metas_at pkgs (p ∷ ps) =
    record { path = p; name = name_or_empty (package_lookup pkgs p) } ∷ metas_at pkgs ps

unfoldable pub module_unit_metas : Text → List PackageMeta → Option (List UnitMeta)
unfolding unit_paths package_lookup
module_unit_metas module_path pkgs = elim (unit_paths module_path pkgs) [
  | none ↦ none
  | some paths ↦ some (metas_at pkgs paths)
]
