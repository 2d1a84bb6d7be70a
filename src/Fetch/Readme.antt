-- ===== src/Fetch/Readme.antt =====
-- internal/fetch/readme.go: the README of a unit's directory.
use pkgsite.Prelude.{
  Bool, not, ◌||◌, ◌&&◌, inl, inr, List, [], ◌∷◌, Text, Option, none, some, codes, text_eq,
  has_prefix, trim_suffix, ltb, if◌then◌else◌,
}
use pkgsite.Derrors.{Error, root, wrap, opaque, module_too_large}
use pkgsite.Fetch.Files.{
  FileError, not_exist, failed, DirEntry, unopened, plain_file, unlisted, listed, ContentDir, base,
  ext, join_path, max_file_size, lower,
}
use pkgsite.Fetch.Package.{rel}
use pkgsite.Fetch.Unit.{Readme}
use pkgsite.Worker.Fetch.Env.{Answer, ok, err}

-- `strings.EqualFold` with a text of letters that Unicode folds with no letter beyond ASCII.
unfoldable pub equal_fold : Text → Text → Bool
unfolding text_eq
equal_fold s t = text_eq (lower s) (lower t)

unfoldable pub is_readme : Text → Bool
unfolding base text_eq trim_suffix equal_fold
is_readme file =
    let e = ext (base file) in
    not (text_eq e (codes ".go") || text_eq e (codes ".vendor"))
    && equal_fold (trim_suffix (base file) e) (codes "README")

unfoldable pub is_markdown : Text → Bool
unfolding text_eq base
is_markdown filepath =
    text_eq (ext (base filepath)) (codes ".md") || text_eq (ext (base filepath)) (codes ".markdown")

-- An error of io/fs is none of the program's.
abbrev pub error_of : FileError → Error
error_of not_exist = Error.other
error_of (failed e) = e

-- A README beside the one found before, which is kept if it is in markdown.
unfoldable pub prefer : Option Readme → Readme → Readme
unfolding is_markdown
prefer none new = new
prefer (some old) new = if is_markdown old.filepath then old else new

module _ (content_dir : ContentDir) where
  -- The loop over the entries of the directory.
  unfoldable pub find_readme : Text → Option Readme → List DirEntry → Answer (Option Readme)
  unfolding is_readme prefer join_path
  find_readme inner_path readme [] = ok readme
  find_readme inner_path readme (e ∷ es) =
      let pathname = join_path inner_path e.name in
      let skipped = find_readme inner_path readme es in
      if not (not e.is_dir && is_readme pathname) then skipped else elim e.size [
        | inr f ↦ err (error_of f)
        | inl size ↦
            if ltb max_file_size size
            then err (wrap (root module_too_large))
            else elim (content_dir.read_file pathname) [
              | err f ↦ err (opaque f)
              | ok c ↦
                  find_readme inner_path
                    (some (prefer readme (record { filepath = pathname; contents = c }))) es
            ]
      ]

  unfoldable pub extract_readme : Text → Text → Answer (Option Readme)
  unfolding rel has_prefix find_readme
  extract_readme module_path dir =
      if has_prefix (rel dir module_path) (codes "_")
      then ok none
      else elim (content_dir.opened (rel dir module_path)) [
        | unopened not_exist ↦ ok none
        | unopened (failed f) ↦ err (wrap f)
        | plain_file ↦ err (wrap Error.other)
        | unlisted f ↦ err (wrap (error_of f))
        | listed entries ↦ elim (find_readme (rel dir module_path) none entries) [
          | err f ↦ err (wrap f)
          | ok readme ↦ ok readme
        ]
      ]
