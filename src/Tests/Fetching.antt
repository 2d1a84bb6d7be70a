-- ===== src/Tests/Fetching.antt =====
-- Examples of internal/frontend/fetchserver and of the candidate module paths.
use pkgsite.Prelude.{
  ℕ, suc, if◌then◌else◌, Bool, true, false, List, [], ◌∷◌, Text, none, some, inl, inr, codes, ◌≡◌,
  refl, text_eq, length, ltb,
}
use pkgsite.Derrors.{root, not_found}
use pkgsite.Frontend.FetchServer.{
  FetchResult, DbError, VersionMap, Response, Look, Run, path_does_not_exist_in_module, empty,
}
use pkgsite.Frontend.FetchServer.NotFound.{Db, serve_path_not_found_page, github_path_redirect}
use pkgsite.Frontend.FetchServer.NotFound.Redirects.{Elsewhere, serve_path_not_found_page-Elsewhere}
use pkgsite.Frontend.FetchServer.Shown.{IsShown, fetch_and_poll-Shows}
use pkgsite.Frontend.FetchServer.Verdict.{Request, Site, fetch_and_poll}
use pkgsite.Paths.{unknown_module_path}
use pkgsite.Paths.Candidates.{candidate_module_paths}
use pkgsite.Paths.Candidates.Terminates.{Below, candidate_module_paths-Below}
use pkgsite.Semver.Toy.{toy}
use pkgsite.Stdlib.{contains}
use pkgsite.Version.{latest}

abbrev any_path : Text → Bool
any_path p = ltb 0 (length p)

abbrev sub_path : Text
sub_path = codes "github.com/a/b/c"

candidates_of_sub_path :
    candidate_module_paths any_path any_path sub_path
    ≡ some (sub_path ∷ codes "github.com/a/b" ∷ [])
unfolding candidate_module_paths
candidates_of_sub_path = refl

candidate_module_paths-Below_example :
    (r : List Text) × (candidate_module_paths any_path any_path sub_path ≡ some r)
    × Below any_path (suc (length sub_path)) r
unfolding contains
candidate_module_paths-Below_example = candidate_module_paths-Below any_path any_path sub_path refl

abbrev missing : DbError
missing = record { error = root not_found; message = codes "not found" }

abbrev row : Text → ℕ → VersionMap
row path status = record {
  module_path = path;
  go_mod_path = path;
  resolved_version = codes "v1.2.3";
  status = status;
  error = [];
  updated_at = 90;
}

abbrev no_row : Look
no_row = record { version_map = inr missing; unit = none; now = 100; context_done = false }

abbrev good_row : Look
good_row = record {
  version_map = inl (row (codes "github.com/a/b") 200);
  unit = none;
  now = 100;
  context_done = false;
}

abbrev no_module : Look
no_module = record {
  version_map = inl (row sub_path 404);
  unit = none;
  now = 100;
  context_done = false;
}

abbrev shows_all : Response → Bool
shows_all r = true

abbrev lacking : FetchResult
lacking = record {
  module_path = codes "github.com/a/b";
  go_mod_path = codes "github.com/a/b";
  status = 404;
  err = some path_does_not_exist_in_module;
  response = empty;
  updated_at = 90;
  resolved_version = [];
}

abbrev site : Site
site = record {
  semver = toy;
  check_path = any_path;
  check_import_path = any_path;
  renders = shows_all;
  std_fetch = false;
  unit_module = λ p. inr missing;
  interval = 50;
}

abbrev runs : Text → Run
runs p = record {
  first = no_row;
  queued = true;
  later = if text_eq p sub_path then no_module ∷ [] else no_row ∷ good_row ∷ [];
}

abbrev request : Request
request = record {
  full_path = sub_path;
  module_path = unknown_module_path;
  requested_version = latest;
}

fetch_and_poll-Shows_example :
    (status : ℕ) × (response : Response) × (fetch_and_poll site runs request
      ≡ some (status, response))
    × IsShown runs status
fetch_and_poll-Shows_example = fetch_and_poll-Shows site runs request

served : fetch_and_poll site runs request ≡ some (200, empty)
unfolding fetch_and_poll
served = refl

abbrev blob_db : Db
blob_db = record {
  stdlib_paths = λ p. inl [];
  version_map = λ p v. inl (row p 404);
  major_path = λ p. record { path = []; major = 0; err = none };
  version_maps = λ ps v. inl (row sub_path 404 ∷ []);
  nested_modules = λ p. inl 0;
  now = 100;
}

serve_path_not_found_page-Elsewhere_example :
    Elsewhere (codes "github.com/a/b/blob/main/c") latest (
      serve_path_not_found_page site blob_db
        (codes "github.com/a/b/blob/main/c")
        unknown_module_path
        latest)
unfolding contains
serve_path_not_found_page-Elsewhere_example =
    serve_path_not_found_page-Elsewhere site blob_db (codes "github.com/a/b/blob/main/c") latest
      unknown_module_path refl

redirected :
    github_path_redirect (codes "github.com/a/b/blob/main/c") ≡ some (codes "github.com/a/b/c")
unfolding github_path_redirect
redirected = refl

-- A directory whose name begins with blob is cut in two.
store_redirected :
    github_path_redirect (codes "github.com/a/b/blobstore") ≡ some (codes "github.com/a/bstore")
unfolding github_path_redirect
store_redirected = refl
