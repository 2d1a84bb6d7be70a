-- ===== src/Fetch/Package.antt =====
-- internal/fetch/package.go: the packages of a module, in two passes: over the names of all files,
-- and over the directories with Go files. `check_import_path` is `module.CheckImportPath`, true if
-- its error is nil. The second pass runs in goroutines: `reorder` gives the directories in the
-- order in which they come to write their results, and errors and their texts are left out of the
-- states.
pub mod States
pub mod Walked
pub mod Covers
pub mod Rootless
use pkgsite.Prelude.{
  contains_text, ℕ, Bool, not, ◌||◌, ◌⊎◌, inl, inr, List, [], ◌∷◌, ◌++◌, Text, Option, none, some,
  codes, text_eq, is_empty, has_prefix, has_suffix, any, split, length, ltb, if◌then◌else◌,
}
use pkgsite.Derrors.{
  Sentinel, Error, root, wrap, opaque, to_status, module_too_large, package_bad_import_path,
  package_max_file_size_limit_exceeded, package_invalid_contents,
  package_build_context_not_supported, bad_module,
}
use pkgsite.Fetch.Files.{
  WalkEntry, FileError, not_exist, failed, ContentDir, join_path, max_file_size,
}
use pkgsite.Fetch.Load.{PackageMeta, Loaded, loaded, load_failed, LoadError, bad_package, serious}
use pkgsite.Paths.Candidates.Dir.{dir}
use pkgsite.Paths.{suffix}
use pkgsite.Stdlib.{mem_text}
use pkgsite.Worker.Fetch.Env.{Answer, ok, err}

-- `internal.PackageVersionState`; a status only comes from `derrors.ToStatus`.
pub record PackageVersionState : Type 0 where
  pub module_path : Text
  pub package_path : Text
  pub version : Text
  pub status : ℕ

unfoldable pub rel : Text → Text → Text
unfolding suffix
rel pkg_path module_path =
    if is_empty (suffix pkg_path module_path) then codes "." else suffix pkg_path module_path

unfoldable pub ignored_by_go_tool : Text → Bool
unfolding any split has_prefix text_eq
ignored_by_go_tool import_path =
    any (λ el. has_prefix el (codes ".") || text_eq el (codes "testdata")) (split import_path b'/')

unfoldable pub is_vendored : Text → Bool
unfolding has_prefix contains_text
is_vendored import_path =
    has_prefix import_path (codes "vendor/") || contains_text import_path (codes "/vendor/")

abbrev pub max_packages_per_module : ℕ
max_packages_per_module = 10000

-- The maps and the slice that the first pass fills. `dirs` has a directory's Go files.
pub record Walk : Type 0 where
  pub dirs : List (Text × List Text)
  pub incomplete : List Text
  pub states : List PackageVersionState

abbrev pub empty_walk : Walk
empty_walk = record { dirs = []; incomplete = []; states = [] }

-- `dirs[innerPath] = append(dirs[innerPath], pathname)`.
unfoldable pub add_go_file : Text → Text → List (Text × List Text) → List (Text × List Text)
unfolding text_eq
add_go_file d p [] = (d, p ∷ []) ∷ []
add_go_file d p ((e, ps) ∷ dirs) =
    if text_eq e d then (e, ps ++ p ∷ []) ∷ dirs else (e, ps) ∷ add_go_file d p dirs

-- The results of `extractPackageMetas`: the packages with the import paths of all directories and
-- the states, `ErrModuleContainsNoPackages`, or another error.
pub data Extracted : Type 0 where
  extracted : List PackageMeta → List Text → List PackageVersionState → Extracted
  no_packages : Extracted
  not_extracted : Error → Extracted

module _ (check_import_path : Text → Bool) (module_path version : Text) where
  abbrev pub state_at : Text → Option Sentinel → PackageVersionState
  state_at import_path status = record {
    module_path = module_path;
    package_path = import_path;
    version = version;
    status = elim status [ none ↦ to_status none | some s ↦ to_status (some (root s)) ];
  }

  -- A directory that cannot be processed, because of the import path or of a file.
  abbrev pub give_up : Walk → Text → Sentinel → Walk
  give_up w inner_path s = record w {
    incomplete = inner_path ∷ w.incomplete;
    states = w.states ++ state_at (join_path module_path inner_path) (some s) ∷ [];
  }

  -- The file is in a directory that is not looked at, or is no Go file.
  unfoldable pub is_skipped : Text → Bool
  unfolding ignored_by_go_tool is_vendored has_suffix join_path
  is_skipped path =
      ignored_by_go_tool (join_path module_path (dir path))
      || is_vendored (join_path module_path (dir path))
      || not (has_suffix path (codes ".go"))

  -- A Go file whose size is within the limit.
  unfoldable pub keep_go_file : Walk → Text → Answer Walk
  unfolding add_go_file
  keep_go_file w path =
      let dirs = add_go_file (dir path) path w.dirs in
      if ltb max_packages_per_module (length dirs)
      then err (wrap (root module_too_large))
      else ok (record w { dirs = dirs })

  -- The function that walks the files: `inl` is the error that ends the walk.
  unfoldable pub walk_entry : Walk → WalkEntry → FileError ⊎ Walk
  walk_entry w e = elim e.failure [
    | some f ↦ inl f
    | none ↦
        if e.is_dir
        then inr w
        else if mem_text (dir e.path) w.incomplete
        then inr w
        else if is_skipped e.path
        then inr w
        else if not (check_import_path (join_path module_path (dir e.path)))
        then inr (give_up w (dir e.path) package_bad_import_path)
        else elim e.size [
          | inr f ↦ inl f
          | inl size ↦
              if ltb max_file_size size
              then inr (give_up w (dir e.path) package_max_file_size_limit_exceeded)
              else elim (keep_go_file w e.path) [ err f ↦ inl (failed f) | ok w' ↦ inr w' ]
        ]
  ]

  -- `fs.WalkDir`, as far as the function decides.
  unfoldable pub walk_dir : Walk → List WalkEntry → FileError ⊎ Walk
  unfolding walk_entry
  walk_dir w [] = inr w
  walk_dir w (e ∷ es) = elim (walk_entry w e) [ inl f ↦ inl f | inr w' ↦ walk_dir w' es ]

  -- The status where there is no package, from the one that the error gave: that there were Go files
  -- comes last.
  abbrev pub status_without_package : Option Sentinel → List Text → Option Sentinel
  status_without_package status go_files =
      if ltb 0 (length go_files) then some package_build_context_not_supported else status

  -- What a goroutine of the second pass adds, by what it loaded.
  unfoldable pub add_loaded :
      Text
      → List Text
      → Loaded (Option PackageMeta)
      → Answer (List PackageMeta × List PackageVersionState)
  add_loaded inner_path go_files (load_failed bad_package) = ok (
    [],
    state_at (join_path module_path inner_path)
          (status_without_package (some package_invalid_contents) go_files)
        ∷ [],
  )
  add_loaded inner_path go_files (load_failed LoadError.not_found) = err (opaque Error.other)
  add_loaded inner_path go_files (load_failed (serious e)) = err (opaque e)
  add_loaded inner_path go_files (loaded none) =
      ok (
        [],
        state_at (join_path module_path inner_path) (status_without_package none go_files) ∷ [],
      )
  add_loaded inner_path go_files (loaded (some pkg)) = ok (pkg ∷ [], [])

  module _ (load_meta : List Text → Text → Loaded (Option PackageMeta)) where
    -- A goroutine of the second pass.
    unfoldable pub load_dir :
        List Text → Text × List Text → Answer (List PackageMeta × List PackageVersionState)
    unfolding add_loaded
    load_dir incomplete (inner_path, go_files) =
        if mem_text inner_path incomplete
        then ok ([], [])
        else add_loaded inner_path go_files (load_meta go_files inner_path)

    -- All goroutines, with the first error that one of them returns.
    unfoldable pub load_dirs :
        List Text → List (Text × List Text) → Answer (List PackageMeta × List PackageVersionState)
    load_dirs incomplete [] = ok ([], [])
    load_dirs incomplete (d ∷ ds) = elim (load_dir incomplete d) [
      | err e ↦ err e
      | ok (pkgs, states) ↦ elim (load_dirs incomplete ds) [
        | err e ↦ err e
        | ok (more, later) ↦ ok (pkgs ++ more, states ++ later)
      ]
    ]

    abbrev pub import_paths : List (Text × List Text) → List Text
    import_paths [] = []
    import_paths ((d, ps) ∷ ds) = join_path module_path d ∷ import_paths ds

    -- The second pass on what the first one left, with the goroutines in an order.
    unfoldable pub load_walk : Walk → List (Text × List Text) → Extracted
    unfolding load_dirs
    load_walk w order = elim (load_dirs w.incomplete order) [
      | err e ↦ not_extracted (wrap e)
      | ok ([], states) ↦ no_packages
      | ok (p ∷ pkgs, states) ↦ extracted (p ∷ pkgs) (import_paths w.dirs) (w.states ++ states)
    ]

    unfoldable pub extract_package_metas :
        (List (Text × List Text) → List (Text × List Text)) → ContentDir → Extracted
    unfolding walk_dir load_walk
    extract_package_metas reorder content_dir = elim (walk_dir empty_walk content_dir.walk) [
      | inl not_exist ↦ no_packages
      | inl (failed e) ↦ not_extracted (wrap e)
      | inr w ↦ load_walk w (reorder w.dirs)
    ]

    -- `extractUnitMetas`, without the units.
    unfoldable pub extract_or_fail :
        (List (Text × List Text) → List (Text × List Text))
        → ContentDir
        → Answer (List PackageMeta × List PackageVersionState)
    unfolding extract_package_metas
    extract_or_fail reorder content_dir = elim (extract_package_metas reorder content_dir) [
      | no_packages ↦ err (wrap (wrap (root bad_module)))
      | not_extracted e ↦ err (wrap e)
      | extracted pkgs paths states ↦ ok (pkgs, states)
    ]
