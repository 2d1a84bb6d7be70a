-- ===== src/Fetch/Load.antt =====
-- internal/fetch/load.go: the name of a package, which every build context that has the package has
-- to agree on. `parse` is go/parser on a file up to its package clause, `match_file` is
-- `build.Context.MatchFile`.
pub mod Agrees
pub mod Names
use pkgsite.Prelude.{
  ℕ, suc, Bool, true, false, ◌||◌, List, [], ◌∷◌, Text, Option, none, some, codes, text_eq,
  has_suffix, ◌==◌, if◌then◌else◌,
}
use pkgsite.Derrors
use pkgsite.Derrors.{Error}
use pkgsite.Fetch.Files.{base, join_path}
use pkgsite.Stdlib
use pkgsite.Symbol.{BuildContext, build_contexts_known}
use pkgsite.Worker.Fetch.Env.{Answer, ok, err}

-- The errors that the callers tell apart: `derrors.NotFound`, a `BadPackageError`, any other.
pub data LoadError : Type 0 where
  not_found bad_package : LoadError
  serious : Error → LoadError

pub data Loaded (A : Type 0) : Type 0 where
  loaded : A → Loaded A
  load_failed : LoadError → Loaded A

-- What the parser says of a file: it could not be read, it does not parse, or its package's name.
pub data Parsed : Type 0 where
  unreadable malformed : Parsed
  named : Text → Parsed

pub record PackageMeta : Type 0 where
  pub path : Text
  pub name : Text

-- A map from the names of files to their contents, in the order of the iteration.
abbrev pub FileMap : Type 0
FileMap = List (Text × Text)

unfoldable pub set_file : Text → Text → FileMap → FileMap
unfolding text_eq
set_file name b [] = (name, b) ∷ []
set_file name b ((n, c) ∷ fs) = if text_eq n name then (n, b) ∷ fs else (n, c) ∷ set_file name b fs

-- The loop of `loadPackageName`: so far there are `n` files that are no tests, in the package
-- `package_name`.
unfoldable pub name_loop : (Text → Text → Parsed) → ℕ → Text → FileMap → Loaded Text
unfolding has_suffix text_eq
name_loop parse n package_name [] = if n == 0 then load_failed not_found else loaded package_name
name_loop parse n package_name ((name, b) ∷ fs) = elim (has_suffix name (codes "_test.go")) [
  | true ↦ name_loop parse n package_name fs
  | false ↦ elim (parse name b) [
    | unreadable ↦ load_failed (serious Derrors.other)
    | malformed ↦ load_failed bad_package
    | named p ↦
        let rest = name_loop parse (suc n) p fs in
        if (n == 0) || text_eq p package_name then rest else load_failed bad_package
  ]
]

abbrev pub load_package_name : (Text → Text → Parsed) → FileMap → Loaded Text
load_package_name parse files = name_loop parse 0 [] files

-- The files that match a build context, all of which are in `all_files`.
unfoldable pub matching_files : (FileMap → Text → Option Bool) → FileMap → FileMap → Loaded FileMap
matching_files match_file all_files [] = loaded []
matching_files match_file all_files ((name, b) ∷ fs) = elim (match_file all_files name) [
  | none ↦ load_failed bad_package
  | some m ↦ elim (matching_files match_file all_files fs) [
    | load_failed e ↦ load_failed e
    | loaded matched ↦ loaded (if m then (name, b) ∷ matched else matched)
  ]
]

-- The map with all the files' contents.
unfoldable pub read_files : (Text → Answer Text) → FileMap → List Text → Loaded FileMap
unfolding set_file base
read_files read files [] = loaded files
read_files read files (p ∷ ps) = elim (read p) [
  | err e ↦ load_failed (serious (Error.opaque e))
  | ok b ↦ read_files read (set_file (base p) b files) ps
]

-- The path that a package of the directory is imported by.
unfoldable pub import_path_of : Text → Text → Text
unfolding text_eq join_path
import_path_of module_path inner_path =
    if text_eq module_path Stdlib.module_path then inner_path else join_path module_path inner_path

module _ (parse : Text → Text → Parsed)
    (match_file : BuildContext → FileMap → Text → Option Bool) where
  -- The name of the package in one build context.
  unfoldable pub name_in : FileMap → BuildContext → Loaded Text
  unfolding matching_files name_loop
  name_in files bc = elim (matching_files (match_file bc) files files) [
    | load_failed e ↦ load_failed e
    | loaded matched ↦ load_package_name parse matched
  ]

  -- The loop over the build contexts, with the package found so far. An error of `matchingFiles`
  -- ends the loop, a bad package or none in the context does not.
  unfoldable pub meta_loop :
      Text → FileMap → Option PackageMeta → List BuildContext → Loaded (Option PackageMeta)
  unfolding matching_files name_loop text_eq
  meta_loop import_path files pkg [] = loaded pkg
  meta_loop import_path files pkg (bc ∷ bcs) = elim (matching_files (match_file bc) files files) [
    | load_failed e ↦ load_failed e
    | loaded matched ↦ elim (load_package_name parse matched) [
      | load_failed not_found ↦ meta_loop import_path files pkg bcs
      | load_failed bad_package ↦ meta_loop import_path files pkg bcs
      | load_failed (serious e) ↦ load_failed (serious e)
      | loaded name ↦ elim pkg [
        | none ↦ meta_loop import_path files (some (record { path = import_path; name = name })) bcs
        | some p ↦
            let rest = meta_loop import_path files (some p) bcs in
            if text_eq name p.name then rest else load_failed bad_package
      ]
    ]
  ]

  unfoldable pub load_package_meta :
      (Text → Answer Text) → Text → List Text → Text → Loaded (Option PackageMeta)
  unfolding read_files import_path_of meta_loop
  load_package_meta read module_path go_file_paths inner_path =
      elim (read_files read [] go_file_paths) [
        | load_failed e ↦ load_failed e
        | loaded files ↦
            meta_loop (import_path_of module_path inner_path) files none build_contexts_known
      ]
