-- ===== src/Fetch/Module.antt =====
-- internal/fetch/fetch.go: a module is queried, checked, split into units, and its units are loaded
-- one by one. Times, logs and the license texts are left out.
use pkgsite.Prelude.{
  ℕ, Bool, false, not, ◌||◌, ◌&&◌, List, [], ◌∷◌, Text, Option, none, some, codes, text_eq,
  if◌then◌else◌,
}
use pkgsite.Derrors.{Error, root, wrap, bad_module, alternative_module}
use pkgsite.Fetch.Files.{ContentDir}
use pkgsite.Fetch.Load.{Loaded, Parsed, FileMap, load_package_meta}
use pkgsite.Fetch.Package.{PackageVersionState, extract_or_fail}
use pkgsite.Fetch.Unit.{UnitMeta, GoPackage, ModuleUnit, module_unit_metas}
use pkgsite.Latest.{ModFile, is_deprecated}
use pkgsite.Licenses.{Classifier, module_is_redistributable}
use pkgsite.Paths.{Modver}
use pkgsite.Stdlib
use pkgsite.Symbol.{BuildContext}
use pkgsite.Worker.Fetch.Env.{Answer, ok, err}

-- `ModuleGetter`: `is_stdlib_zip` tells the one of the standard library, whose contents are
-- `stdlib.ContentDir`'s, with the version that they are of.
pub record ModuleGetter : Type 0 where
  pub info : Text → Text → Answer Text
  pub is_stdlib_zip : Bool
  pub stdlib_content_dir : Text → Answer (ContentDir × Text)
  pub content_dir : Text → Text → Answer ContentDir
  pub mod_file : Text → Text → Answer Text

-- The libraries' functions: the package clause of a file, `build.Context.MatchFile`,
-- `module.CheckImportPath`, `modfile.ModulePath`, `modfile.Parse`, the path that
-- `module.SplitPathVersion` cuts a version from; the license classifier; `loadPackage`, which makes
-- the documents; the generated table of signatures; and the order of the goroutines.
pub record Tools : Type 0 where
  pub parse : Text → Text → Parsed
  pub match_file : BuildContext → FileMap → Text → Option Bool
  pub check_import_path : Text → Bool
  pub mod_module_path : Text → Text
  pub parse_mod : Text → Option ModFile
  pub split_path_version : Text → Option Text
  pub classifier : Classifier
  pub load_package : ContentDir → Text → Text → List Text → Text → Loaded (Option GoPackage)
  pub zip_signatures : Text → List Modver
  pub reorder : List (Text × List Text) → List (Text × List Text)

-- `LazyModule`, with what is used of `internal.ModuleInfo`. The version that the license detector and
-- the links to the source get is not read.
pub record LazyModule : Type 0 where
  pub module_path : Text
  pub version : Text
  pub requested_version : Text
  pub has_go_mod : Bool
  pub go_mod_path : Text
  pub is_redistributable : Bool
  pub deprecated : Bool × Text
  pub unit_metas : List UnitMeta
  pub failed_packages : List PackageVersionState
  pub content_dir : Option ContentDir
  pub error : Option Error

-- The whole `FetchResult`.
pub record Fetched : Type 0 where
  pub module_path : Text
  pub requested_version : Text
  pub resolved_version : Text
  pub has_go_mod : Bool
  pub go_mod_path : Text
  pub status : ℕ
  pub error : Option Error
  pub units : List ModuleUnit
  pub states : List PackageVersionState

unfoldable pub lookup_text : Text → List (Text × Text) → Text
unfolding text_eq
lookup_text k [] = []
lookup_text k ((j, v) ∷ rest) = if text_eq j k then v else lookup_text k rest

abbrev azure : Text
azure = codes "github.com/Azure/azure-sdk-for-go"

abbrev pub known_alternatives : List (Text × Text)
known_alternatives =
    (codes "github.com/Azure/Azure-sdk-for-go", azure)
    ∷ (codes "github.com/azure/azure-sdk-for-go", azure)
    ∷ (codes "github.com/evenh/azure-sdk-for-go", azure)
    ∷ (codes "github.com/msopentech/azure-sdk-for-go", azure)
    ∷ (codes "github.com/MSOpenTech/azure-sdk-for-go", azure)
    ∷ (codes "github.com/scott-the-programmer/azure-sdk-for-go", azure)
    ∷ (codes "gopkg.in/Azure/azure-sdk-for-go", azure)
    ∷ (codes "gopkg.in/azure/azure-sdk-for-go", azure)
    ∷ (codes "github.com/masslessparticle/azure-sdk-for-go", azure)
    ∷ (codes "github.com/aliyun/alibaba-cloud-sdk-go", azure)
    ∷ (codes "github.com/johnstairs/azure-sdk-for-go", azure)
    ∷ (codes "github.com/shopify/sarama", codes "github.com/Shopify/sarama")
    ∷ []

-- The loop of `forkedFrom` over the modules with the signature.
unfoldable pub fork_of : Text → Text → List Modver → Text
unfolding text_eq
fork_of module_path version [] = []
fork_of module_path version (mv ∷ mvs) =
    let rest = fork_of module_path version mvs in
    if not (text_eq mv.path module_path) && text_eq mv.version version then mv.path else rest

module _ (tools : Tools) where
  unfoldable pub known_alternative_for : Text → Text
  unfolding lookup_text
  known_alternative_for module_path = elim (tools.split_path_version module_path) [
    | none ↦ []
    | some key ↦ lookup_text key known_alternatives
  ]

  unfoldable pub forked_from : ContentDir → Text → Text → Answer Text
  unfolding fork_of
  forked_from cd module_path version = elim cd.signature [
    | err e ↦ err e
    | ok signature ↦ ok (fork_of module_path version (tools.zip_signatures signature))
  ]

  -- `getGoModPath`: the path, the bytes, and the error.
  unfoldable pub get_go_mod_path : ModuleGetter → Text → Text → Text × Text × Option Error
  unfolding text_eq
  get_go_mod_path mg module_path version = elim (mg.mod_file module_path version) [
    | err e ↦ ([], [], some e)
    | ok bytes ↦
        let path = tools.mod_module_path bytes in
        if text_eq path []
        then ([], [], some (wrap (root bad_module)))
        else if not (text_eq path module_path)
        then (path, bytes, some (wrap (root alternative_module)))
        else (path, bytes, none)
  ]

  -- The error where there is no go.mod file in the zip.
  unfoldable pub alternative_error : ContentDir → Text → Text → Option Error
  unfolding text_eq known_alternative_for forked_from
  alternative_error cd module_path version =
      if not (text_eq (known_alternative_for module_path) [])
      then some (wrap (root alternative_module))
      else elim (forked_from cd module_path version) [
        | err e ↦ some e
        | ok path ↦ if text_eq path [] then none else some (wrap (root alternative_module))
      ]

  -- `extractUnitMetas`: `none` is a fuel that runs out.
  unfoldable pub extract_unit_metas :
      Text → Text → ContentDir → Option (Answer (List UnitMeta × List PackageVersionState))
  extract_unit_metas module_path version cd =
      elim (extract_or_fail tools.check_import_path module_path version
        (load_package_meta tools.parse tools.match_file cd.read_file module_path) tools.reorder
        cd) [
          | err e ↦ some (err e)
          | ok (pkgs, states) ↦ elim (module_unit_metas module_path pkgs) [
            | none ↦ none
            | some metas ↦ some (ok (metas, states))
          ]
        ]

  -- The end of `fetchLazyModule`. The bytes are not nil here, since they have a module path.
  unfoldable pub with_go_mod : LazyModule → ContentDir → Text → Option LazyModule
  with_go_mod lm cd bytes =
      let checked = record lm {
        is_redistributable = module_is_redistributable tools.classifier lm.module_path cd;
      } in
      elim (extract_unit_metas lm.module_path lm.version cd) [
        | none ↦ none
        | some (err e) ↦ some (record checked { error = some e })
        | some (ok (metas, states)) ↦
            let extracted = record checked { unit_metas = metas; failed_packages = states } in
            elim (tools.parse_mod bytes) [
              | none ↦ some (record extracted { error = some (wrap (root bad_module)) })
              | some mf ↦ some (record extracted { deprecated = is_deprecated mf })
            ]
      ]

  unfoldable pub with_contents : ModuleGetter → LazyModule → ContentDir → Option LazyModule
  with_contents mg lm cd =
      let (path, bytes, error) = get_go_mod_path mg lm.module_path lm.version in
      let found = record lm { go_mod_path = path } in
      elim error [
        | some e ↦ some (record found { error = some e })
        | none ↦
            elim (if lm.has_go_mod then none else alternative_error cd lm.module_path lm.version) [
              | some e ↦ some (record found { error = some e })
              | none ↦ with_go_mod found cd bytes
            ]
      ]

  abbrev pub has_go_mod_file : ContentDir → Bool
  has_go_mod_file cd = elim cd.stat_go_mod [ none ↦ false | some is_dir ↦ not is_dir ]

  -- The contents, with the version that they are of.
  abbrev pub contents_of : ModuleGetter → Text → Text → Text → Answer (ContentDir × Text)
  contents_of mg module_path requested_version version =
      if mg.is_stdlib_zip
      then mg.stdlib_content_dir requested_version
      else elim (mg.content_dir module_path version) [ err e ↦ err e | ok cd ↦ ok (cd, version) ]

  abbrev pub new_lazy_module : Text → Text → LazyModule
  new_lazy_module module_path requested_version = record {
    module_path = module_path;
    version = [];
    requested_version = requested_version;
    has_go_mod = false;
    go_mod_path = [];
    is_redistributable = false;
    deprecated = (false, []);
    unit_metas = [];
    failed_packages = [];
    content_dir = none;
    error = none;
  }

  -- The lazy module when its contents are there.
  abbrev pub opened_module : Text → Text → ContentDir → Text → LazyModule
  opened_module module_path requested_version cd resolved =
      record (new_lazy_module module_path requested_version) {
        version = resolved;
        content_dir = some cd;
        has_go_mod = text_eq module_path Stdlib.module_path || has_go_mod_file cd;
      }

  unfoldable pub fetch_lazy_module : Text → Text → ModuleGetter → Option LazyModule
  fetch_lazy_module module_path requested_version mg =
      let lm = new_lazy_module module_path requested_version in
      elim (mg.info module_path requested_version) [
        | err e ↦ some (record lm { error = some e })
        | ok version ↦ elim (contents_of mg module_path requested_version version) [
          | err e ↦ some (record lm { version = version; error = some e })
          | ok (cd, resolved) ↦
              with_contents mg (opened_module module_path requested_version cd resolved) cd
        ]
      ]
