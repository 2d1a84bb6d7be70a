-- ===== src/Licenses.antt =====
-- internal/licenses/licenses.go: the license files of a module, and whether a package may be
-- redistributed. The classifier licensecheck and `module.CheckFilePath` are parameters.
pub mod Tables
pub mod Redistributes
use pkgsite.Prelude.{
  ℕ, Bool, true, false, not, ◌||◌, ◌&&◌, List, [], ◌∷◌, ◌++◌, Text, Option, none, some, codes,
  text_eq, is_empty, has_prefix, drop, length, ltb, ◌==◌, if◌then◌else◌,
}
use pkgsite.Fetch.Files.{WalkEntry, ContentDir, base, lower}
use pkgsite.Licenses.Tables.{file_names, standard_types, ignorable_types, ignore_files}
use pkgsite.Paths.Candidates.Dir.{clean, dir, has_slash}
use pkgsite.Stdlib.{mem_text}
use pkgsite.Vuln.Compact.{text_gt}
use pkgsite.Worker.Fetch.Env.{ok, err}

-- What the classifier says of a file: whether enough of it is license text, and the licenses found.
-- `exception_types` is the generated table of licenses that are not the classifier's own.
pub record Classifier : Type 0 where
  pub scan : Text → Bool × List Text
  pub exception_types : Text → Option (List Text)
  pub check_file_path : Text → Bool
  pub max_license_size : ℕ

-- `License`, without its contents and its coverage.
pub record License : Type 0 where
  pub types : List Text
  pub filepath : Text

unfoldable pub is_redistributable_type : Text → Bool
unfolding mem_text text_eq
is_redistributable_type t = mem_text t standard_types || text_eq t (codes "Freetype")

unfoldable pub is_ignorable_type : Text → Bool
unfolding mem_text
is_ignorable_type t = mem_text t ignorable_types

-- The loop of `Redistributable`.
unfoldable pub redistributable_from : Bool → List Text → Bool
redistributable_from saw [] = saw
redistributable_from saw (t ∷ ts) =
    let rest = redistributable_from (if is_ignorable_type t then saw else true) ts in
    if is_ignorable_type t then rest else if not (is_redistributable_type t) then false else rest

unfoldable pub redistributable : List Text → Bool
redistributable ts = redistributable_from false ts

unfoldable pub types_of : List License → List Text
types_of [] = []
types_of (l ∷ ls) = l.types ++ types_of ls

-- A set as a sorted slice.
unfoldable pub insert_type : Text → List Text → List Text
unfolding text_eq text_gt
insert_type t [] = t ∷ []
insert_type t (u ∷ us) =
    if text_eq t u then u ∷ us else if text_gt t u then u ∷ insert_type t us else t ∷ u ∷ us

unfoldable pub insert_types : List Text → List Text → List Text
unfolding insert_type
insert_types [] set = set
insert_types (t ∷ ts) set = insert_types ts (insert_type t set)

abbrev pub unknown_license_type : Text
unknown_license_type = codes "UNKNOWN"

abbrev lower_all : List Text → List Text
lower_all [] = []
lower_all (s ∷ ss) = lower s ∷ lower_all ss

-- What follows the first place of a text, if it is there.
unfoldable pub after_text : Text → Text → Option Text
unfolding has_prefix
after_text [] sub = if is_empty sub then some [] else none
after_text (c ∷ s) sub =
    let rest = after_text s sub in
    if has_prefix (c ∷ s) sub then some (drop (length sub) (c ∷ s)) else rest

unfoldable pub is_vendored_file : Text → Bool
unfolding has_prefix after_text
is_vendored_file name =
    if has_prefix name (codes "vendor/")
    then has_slash (drop 7 name)
    else elim (after_text name (codes "/vendor/")) [ none ↦ false | some rest ↦ has_slash rest ]

-- The licenses of the entries of `licsByDir` that are above a directory, as one loop over the
-- files: the map only gathers them by their directories.
unfoldable pub licenses_above : Text → List License → List License
licenses_above clean_dir [] = []
licenses_above clean_dir (l ∷ ls) =
    if has_prefix (clean_dir ++ codes "/") (dir l.filepath ++ codes "/")
    then l ∷ licenses_above clean_dir ls
    else licenses_above clean_dir ls

-- `RootFiles` and `NonRootFiles`.
pub data WhichFiles : Type 0 where
  root_files non_root_files : WhichFiles

abbrev pub is_asked : WhichFiles → Text → Bool
is_asked root_files d = text_eq d (codes ".")
is_asked non_root_files d = not (text_eq d (codes "."))

module _ (classifier : Classifier) where
  abbrev pub types_of_match : Text → List Text
  types_of_match id = elim (classifier.exception_types id) [ none ↦ id ∷ [] | some ts ↦ ts ]

  abbrev pub types_of_matches : List Text → List Text → List Text
  types_of_matches [] set = set
  types_of_matches (id ∷ ids) set = types_of_matches ids (insert_types (types_of_match id) set)

  unfoldable pub detect_file : Text → List Text
  unfolding insert_types
  detect_file contents =
      let found = classifier.scan contents in
      if not found.0
      then unknown_license_type ∷ []
      else elim (types_of_matches found.1 []) [ [] ↦ unknown_license_type ∷ [] | t ∷ ts ↦ t ∷ ts ]

  module _ (module_path : Text) (cd : ContentDir) where
    -- Whether a file of the walk, which is no directory, is a license file that is asked for.
    unfoldable pub is_license_path : WhichFiles → Text → Bool
    is_license_path which pathname =
        mem_text (lower (base pathname)) (lower_all file_names)
        && not (mem_text (module_path ++ (b' ' ∷ pathname)) ignore_files)
        && is_asked which (dir pathname)
        && not (is_vendored_file pathname)
        && classifier.check_file_path pathname

    -- The walk of `Detector.paths`; an error of it is `none`.
    unfoldable pub walk_paths : WhichFiles → List WalkEntry → Option (List Text)
    walk_paths which [] = some []
    walk_paths which (e ∷ es) = elim e.failure [
      | some f ↦ none
      | none ↦ elim (walk_paths which es) [
        | none ↦ none
        | some paths ↦
            some (if not e.is_dir && is_license_path which e.path then e.path ∷ paths else paths)
      ]
    ]

    unfoldable pub paths : WhichFiles → List Text
    unfolding walk_paths
    paths which = elim (walk_paths which cd.walk) [ none ↦ [] | some ps ↦ ps ]

    -- `readFile`: an error is `none`.
    unfoldable pub read_license : Text → Option Text
    read_license p = elim (cd.file_size p) [
      | err e ↦ none
      | ok size ↦
          if ltb classifier.max_license_size size
          then none
          else elim (cd.read_file p) [ err e ↦ none | ok contents ↦ some contents ]
    ]

    unfoldable pub detect_files : List Text → List License
    unfolding read_license detect_file
    detect_files [] = []
    detect_files (p ∷ ps) =
        record {
          types = elim (read_license p) [
            | none ↦ unknown_license_type ∷ []
            | some contents ↦ detect_file contents
          ];
          filepath = p;
        }
        ∷ detect_files ps

    unfoldable pub module_licenses : List License
    module_licenses = detect_files (paths root_files)

    unfoldable pub module_is_redistributable : Bool
    module_is_redistributable = redistributable (types_of module_licenses)

    unfoldable pub non_root_licenses : List License
    non_root_licenses = detect_files (paths non_root_files)

    unfoldable pub all_licenses : List License
    all_licenses = module_licenses ++ non_root_licenses

    unfoldable pub package_info : Text → Bool × List License
    package_info d =
        let clean_dir = clean d in
        let lics = licenses_above clean_dir non_root_licenses in
        if has_prefix clean_dir (codes "/") || has_prefix clean_dir (codes "..")
        then (false, [])
        else (
          module_is_redistributable
              && ((length (types_of lics) == 0) || redistributable (types_of lics)),
          lics ++ module_licenses,
        )
