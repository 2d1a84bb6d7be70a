-- ===== src/Tests/Modules.antt =====
-- The fetching of a small module, its licenses, and the modules that are processed next.
use mathlib.Core.Path.{subst}
use Prim.Native.String.{String}
use pkgsite.Prelude.Int.{pos}
use pkgsite.Prelude.{
  Option, ◌≢◌, ℕ, true, false, ◌≡◌, ◌↔◌, refl, ◌⊎◌, inl, inr, List, [], ◌∷◌, Text, none, some,
  codes, arith, In, All, has_prefix, text_eq, if◌then◌else◌, has_suffix,
}
use pkgsite.Fetch.Files.{WalkEntry, DirEntry, ContentDir, listed, join_path, base}
use pkgsite.Fetch.Load.{Parsed, loaded, import_path_of, load_package_meta, read_files, FileMap}
use pkgsite.Fetch.Module.{
  ModuleGetter, Tools, LazyModule, Fetched, fetch_lazy_module, with_contents, with_go_mod,
  get_go_mod_path, alternative_error, known_alternative_for, forked_from, fork_of,
  extract_unit_metas,
}
use pkgsite.Fetch.Package.{
  is_skipped, extract_or_fail, extract_package_metas, walk_dir, walk_entry, keep_go_file, load_walk,
  load_dirs, load_dir, add_loaded,
}
use pkgsite.Fetch.Package.States.{FailedAt}
use pkgsite.Fetch.Package.Walked.{Considered}
use pkgsite.Fetch.Whole.Complete.{Within, TellsOf, fetch_result-Complete}
use pkgsite.Fetch.Load.Agrees.{Agree, load_package_meta-Agree}
use pkgsite.Requeue.{ModuleVersionState}
use pkgsite.Licenses.Redistributes.{
  May, SomeAllows, Above, AllMayAbove, package_info-Allows, package_info-In,
}
use pkgsite.Stdlib.{mem_text}
use pkgsite.Fetch.Result.{fetch_module, fetch_result, collect_units, finish_result}
use pkgsite.Fetch.Unit.{GoPackage, unit_paths, module_unit_metas, should_continue}
use pkgsite.Fetch.Whole.{GetsFs, IsFs}
use pkgsite.Fetch.Whole.Kept.{IsTold, fetch_module-IsTold}
use pkgsite.Fetch.Unit.Least.{IsUnitPaths, unit_paths-IsUnitPaths}
use pkgsite.Stdlib
use pkgsite.Frontend.FetchServer.Update
use pkgsite.Frontend.FetchServer.Update.{fetch_and_update_state-Returns}
use pkgsite.Proxy.{Server, Client, Suffix, info_suffix, mod_suffix, with_cache}
use pkgsite.Proxy.Cached.{run, answers, run-with_cache}
use pkgsite.Semver.Toy.{toy}
use pkgsite.Tests.Worker.{calm, idle, a_version}
use pkgsite.Worker.Fetch.Composed.{with_fetch_module, fetch_composed-Agree}
use pkgsite.Worker.Fetch.Status
use pkgsite.Worker.Fetch.Update.{fetch_and_update_state}
use pkgsite.Derrors.{Error}
use pkgsite.Latest.{is_deprecated}
use pkgsite.Licenses.{
  Classifier, License, package_info, licenses_above, module_is_redistributable, redistributable,
  redistributable_from, is_ignorable_type, is_redistributable_type, types_of, module_licenses,
  non_root_licenses, detect_files, paths, walk_paths, is_license_path, is_vendored_file,
}
use pkgsite.Paths.Candidates.Dir.{dir, clean}
use pkgsite.Symbol.{build_contexts_known}
use pkgsite.Worker.Fetch.Env.{Answer, ok, err}

abbrev path_of_module : Text
path_of_module = codes "example.com/m"

abbrev file : String → WalkEntry
file name = record { path = codes name; failure = none; is_dir = false; size = inl 100 }

abbrev folder : String → WalkEntry
folder name = record { path = codes name; failure = none; is_dir = true; size = inl 0 }

abbrev go_file : DirEntry
go_file = record { name = codes "x.go"; is_dir = false; size = inl 100 }

-- A package in the directory a, which has a license of its own.
abbrev small : ContentDir
small = record {
  walk = folder "." ∷ file "LICENSE" ∷ folder "a" ∷ file "a/LICENSE" ∷ file "a/x.go" ∷ [];
  opened = λ p. if text_eq p (codes "a") then listed (go_file ∷ []) else listed [];
  read_file = λ p. ok (codes "contents");
  file_size = λ p. ok 100;
  stat_go_mod = none;
  signature = ok (codes "1234");
}

abbrev mit : Classifier
mit = record {
  scan = λ contents. (true, codes "MIT" ∷ []);
  exception_types = λ id. none;
  check_file_path = λ p. true;
  max_license_size = 1000;
}

abbrev package_a : GoPackage
package_a = record {
  path = codes "example.com/m/a";
  name = codes "a";
  imports = codes "fmt" ∷ [];
  docs = [];
  too_large = false;
}

abbrev tools : Tools
tools = record {
  parse = λ name contents. Parsed.named (codes "a");
  match_file = λ bc files name. some true;
  check_import_path = λ p. true;
  mod_module_path = λ bytes. bytes;
  parse_mod = λ bytes. some (record { module_comments = none; retract = [] });
  split_path_version = λ p. none;
  classifier = mit;
  load_package = λ cd p v files d. loaded (some package_a);
  zip_signatures = λ s. [];
  reorder = λ ds. ds;
}

abbrev getter : ModuleGetter
getter = record {
  info = λ p v. ok (codes "v1.0.0");
  is_stdlib_zip = false;
  stdlib_content_dir = λ v. err Error.other;
  content_dir = λ p v. ok small;
  mod_file = λ p v. ok p;
}

small-IsFs : IsFs small
unfolding has_prefix
small-IsFs e (inl q) = rw q refl
small-IsFs e (inr (inl q)) = rw q refl
small-IsFs e (inr (inr (inl q))) = rw q refl
small-IsFs e (inr (inr (inr (inl q)))) = rw q refl
small-IsFs e (inr (inr (inr (inr (inl q))))) = rw q refl
small-IsFs e (inr (inr (inr (inr (inr m))))) = absurd m

getter-GetsFs : GetsFs getter
getter-GetsFs = ((λ p v cd h. subst IsFs (ok_eq h) small-IsFs), (λ w v cd h. absurd (ground arith)))
  where
    ok_eq : {x y : ContentDir} → ◌≡◌ {A = Answer ContentDir} (ok x) (ok y) → x ≡ y
    ok_eq h = cc

no_std : text_eq path_of_module Stdlib.module_path ≡ false
unfolding text_eq
no_std = refl

fetch_module-IsTold_example :
    (fr : Fetched) × (fetch_module tools path_of_module (codes "latest") getter ≡ some fr)
    × IsTold tools fr
fetch_module-IsTold_example =
    fetch_module-IsTold tools path_of_module (codes "latest") getter (omega arith) (λ ds d m. m)
      getter-GetsFs

unit_paths-IsUnitPaths_example :
    (paths : List Text) × (unit_paths path_of_module
        (record { path = codes "example.com/m/a/b"; name = codes "b" } ∷ [])
      ≡ some paths)
    × IsUnitPaths path_of_module
        (record { path = codes "example.com/m/a/b"; name = codes "b" } ∷ [])
        paths
unit_paths-IsUnitPaths_example =
    unit_paths-IsUnitPaths path_of_module
      (record { path = codes "example.com/m/a/b"; name = codes "b" } ∷ [])
      (λ m i. inr (no_std, omega arith))

abbrev lazy : LazyModule
lazy = record {
  module_path = path_of_module;
  version = codes "v1.0.0";
  requested_version = codes "latest";
  has_go_mod = false;
  go_mod_path = path_of_module;
  is_redistributable = true;
  deprecated = (false, []);
  unit_metas =
      record { path = codes "example.com/m/a"; name = codes "a" }
      ∷ record { path = path_of_module; name = [] }
      ∷ [];
  failed_packages = [];
  content_dir = some small;
  error = none;
}

is_lazy : fetch_lazy_module tools path_of_module (codes "latest") getter ≡ some lazy
unfolding fetch_lazy_module with_contents with_go_mod get_go_mod_path alternative_error
    known_alternative_for forked_from fork_of extract_unit_metas extract_or_fail
    extract_package_metas walk_dir walk_entry is_skipped keep_go_file load_walk load_dirs load_dir
    add_loaded mem_text load_package_meta module_unit_metas is_deprecated module_is_redistributable
    redistributable redistributable_from is_ignorable_type is_redistributable_type types_of
    module_licenses detect_files paths walk_paths is_license_path is_vendored_file base text_eq dir
    join_path has_suffix
is_lazy = refl

no_error_left : (fetch_result tools lazy).error ≡ none
unfolding fetch_result collect_units finish_result
no_error_left = refl

considered : Considered tools.check_import_path path_of_module lazy.version (file "a/x.go")
unfolding is_skipped join_path dir
considered = (refl, refl)

within : Within tools path_of_module (import_path_of path_of_module (dir (codes "a/x.go")))
unfolding import_path_of dir should_continue
within = inr (inr ((λ h. cc), omega arith))

parse_nonempty : (n b : Text) → tools.parse n b ≢ Parsed.named []
parse_nonempty n b h = cc

fetch_result-Complete_example :
    TellsOf tools path_of_module lazy small
      (fetch_result tools lazy)
      (import_path_of path_of_module (dir (codes "a/x.go")))
    ⊎ FailedAt (fetch_result tools lazy).states (join_path path_of_module (dir (codes "a/x.go")))
fetch_result-Complete_example =
    fetch_result-Complete tools path_of_module (codes "latest") getter lazy small (omega arith)
      (λ n b. parse_nonempty n b) (λ ds d m. m) (λ ds d m. m) small-IsFs is_lazy refl no_error_left
      (file "a/x.go") (inr (inr (inr (inr (inl refl))))) considered within

loads_a :
    load_package_meta tools.parse tools.match_file small.read_file path_of_module
      (codes "a/x.go" ∷ [])
      (codes "a")
    ≡ loaded (some (record { path = codes "example.com/m/a"; name = codes "a" }))
unfolding load_package_meta
loads_a = refl

load_package_meta-Agree_example :
    (files : FileMap) × (read_files small.read_file [] (codes "a/x.go" ∷ []) ≡ loaded files)
    × Agree tools.parse tools.match_file
        (import_path_of path_of_module (codes "a"))
        files
        build_contexts_known
        (some (record { path = codes "example.com/m/a"; name = codes "a" }))
load_package_meta-Agree_example =
    load_package_meta-Agree tools.parse tools.match_file small.read_file path_of_module
      (codes "a/x.go" ∷ []) (codes "a") loads_a

may_give : (package_info mit path_of_module small (codes "a")).0 ≡ true
unfolding package_info licenses_above module_is_redistributable redistributable redistributable_from
    is_ignorable_type is_redistributable_type types_of module_licenses non_root_licenses
    detect_files paths walk_paths is_license_path is_vendored_file base text_eq dir mem_text clean
may_give = refl

package_info-Allows_example :
    All May (types_of (module_licenses mit path_of_module small))
    × SomeAllows (types_of (module_licenses mit path_of_module small))
    × AllMayAbove mit path_of_module small (clean (codes "a"))
package_info-Allows_example = package_info-Allows mit path_of_module small (codes "a") may_give

abbrev license_a : License
license_a = record { types = codes "MIT" ∷ []; filepath = codes "a/LICENSE" }

inside : has_prefix (clean (codes "a")) (codes "/") ≡ false
unfolding clean has_prefix
inside = refl

under : has_prefix (clean (codes "a")) (codes "..") ≡ false
unfolding clean has_prefix
under = refl

package_info-In_example : In license_a (package_info mit path_of_module small (codes "a")).1 ↔ (
    (In license_a (non_root_licenses mit path_of_module small)
      × Above (dir (codes "a/LICENSE")) (clean (codes "a")))
    ⊎ In license_a (module_licenses mit path_of_module small))
package_info-In_example =
    package_info-In mit path_of_module small (codes "a") inside under license_a

abbrev row : ℕ → ModuleVersionState
row status = record {
  module_path = path_of_module;
  version = codes "v1.0.0";
  status = status;
  num_packages = some 7;
}

fetch_composed-Agree_example :
    Status.Agree
      (fetch_and_update_state
        (with_fetch_module tools (λ p. getter) calm)
        toy
        (some idle)
        path_of_module
        a_version).0.0.status
      (fetch_and_update_state
        (with_fetch_module tools (λ p. getter) calm)
        toy
        (some idle)
        path_of_module
        a_version).0.0.error
fetch_composed-Agree_example =
    fetch_composed-Agree tools (λ p. getter) calm toy path_of_module a_version (some idle)

-- A proxy that answers every request with a module's data.
abbrev proxy : Server
proxy = record {
  get = λ u disabled. ok (record { status = 200; body = ok u; content_length = pos 3 });
  head = λ u. err Error.other;
  is_done = λ u. false;
  escape_path = λ p. some p;
  escape_version = λ v. some v;
  unmarshal = λ t. ok t;
  read_zip = λ t. ok t;
  scan_lines = λ t. ok [];
}

abbrev client : Client
client = record { url = codes "https://proxy.golang.org"; disable_fetch = false; cache = none }

abbrev requests : List (Suffix × Text × Text)
requests =
    (info_suffix, path_of_module, codes "latest")
    ∷ (mod_suffix, path_of_module, codes "v1.0.0")
    ∷ (info_suffix, path_of_module, codes "latest")
    ∷ []

run-with_cache_example : run proxy (with_cache client) requests ≡ answers proxy client requests
run-with_cache_example = run-with_cache proxy client requests

abbrev failed_insert : Fetched
failed_insert = record {
  module_path = path_of_module;
  requested_version = codes "latest";
  resolved_version = codes "v1.0.0";
  has_go_mod = true;
  go_mod_path = path_of_module;
  status = 200;
  error = none;
  units = [];
  states = [];
}

fetch_and_update_state-Returns_example :
    Status.Agree
      (Update.fetch_and_update_state (λ fr. some Error.other) (λ r. none) failed_insert).0.0
      (Update.fetch_and_update_state (λ fr. some Error.other) (λ r. none) failed_insert).0.1
    × (((Update.fetch_and_update_state (λ fr. some Error.other) (λ r. none) failed_insert).0.0
          ≡ 200)
        ↔ ((failed_insert.error ≡ none) × (◌≡◌ {A = Option Error} none none)))
    × ((failed_insert.error ≡ none)
        → some Error.other ≢ none
        → (Update.fetch_and_update_state
            (λ fr. some Error.other)
            (λ r. none)
            failed_insert).1.status
          ≡ 500)
fetch_and_update_state-Returns_example =
    fetch_and_update_state-Returns (λ fr. some Error.other) (λ r. none) failed_insert refl
