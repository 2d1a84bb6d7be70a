-- ===== src/Tests/Worker.antt =====
-- Examples of internal/worker and internal/derrors.
use pkgsite.Prelude.{
  ℕ, true, false, [], ◌∷◌, Text, none, some, codes, ◌≡◌, refl, inl, arith, if◌then◌else◌, ◌||◌,
  ◌==◌,
}
use pkgsite.Derrors.{root, not_found, from_status, to_status, codes_table}
use pkgsite.Derrors.Status.{has_code, to_status-from_status}
use pkgsite.Semver.Toy.{toy}
use pkgsite.Worker.LoadShedder.{LoadShedder, should_shed}
use pkgsite.Worker.LoadShedder.Bounded.{
  IsWord, System, begin, Reach, start, next, IsBounded, Reach-IsBounded,
}
use pkgsite.Worker.Fetch.Env.{Env, Answer}
use pkgsite.Worker.Fetch.Update.{process, fetch_and_update_state}
use pkgsite.Worker.Fetch.Deletes.{deleted, rows_to_delete, process-deletes}
use pkgsite.Worker.Fetch.Last.{WritesRow, fetch_and_update_state-WritesLast}
use pkgsite.Worker.Fetch.Shedder.{SameLoad, fetch_and_update_state-SameLoad}

abbrev pub a_path : Text
a_path = codes "example.com/m"

abbrev pub a_version : Text
a_version = codes "v1.2.3"

-- Every call succeeds, and the module is good.
abbrev pub calm : Env
calm = record {
  get_info = λ path version. Answer.ok a_version;
  zip_size = λ path version. Answer.ok 10;
  db_info = none;
  max_zip_size = 100;
  fetch_disabled = false;
  fetch_module = λ path requested. record {
    mod_path = path;
    requested_version = requested;
    resolved_version = a_version;
    go_mod_path = path;
    status = 200;
    error = none;
  };
  resolve = λ path version. Answer.err (root not_found);
  is_excluded = λ path version. false;
  latest_versions = λ path. Answer.ok (some a_version);
  insert_new = λ path version. none;
  put_latest_status = λ path status. none;
  put_latest = λ path. none;
  insert = λ path version. Answer.ok true;
  has_cache = true;
  series_path = λ path. path;
  delete_row = λ path version. none;
  put_latest_good = λ path. none;
  upsert = λ path requested version. none;
  has_state = λ path version. none;
  reconcile = λ path version status. none;
  put_state = λ path version status. none;
}

-- Nothing in flight, 50 bytes allowed.
abbrev pub idle : LoadShedder
idle = record {
  max_size_in_flight = 50;
  size_in_flight = 0;
  requests_in_flight = 0;
  requests_total = 0;
  requests_shed = 0;
}

abbrev full : LoadShedder
full = record idle { size_in_flight = 45; requests_in_flight = 2; requests_total = 2 }

idle-IsWord : IsWord idle
idle-IsWord = record {
  max_word = omega arith;
  size_word = omega arith;
  requests_word = omega arith;
}

fetch_and_update_state-WritesLast_example :
    WritesRow a_path
      (fetch_and_update_state calm toy (some idle) a_path a_version).0.0.status
      (fetch_and_update_state calm toy (some idle) a_path a_version).0.1
fetch_and_update_state-WritesLast_example =
    fetch_and_update_state-WritesLast calm toy (some idle) a_path a_version

process-deletes_example :
    deleted (process calm toy a_path a_version).1 ≡ rows_to_delete calm a_path a_version
process-deletes_example = process-deletes calm toy a_path a_version

calm-sizes :
    (path version : Text) (size : ℕ) → calm.zip_size path version ≡ Answer.ok size → size ≡ 10
calm-sizes path version size h = ground arith

fetch_and_update_state-SameLoad_example :
    SameLoad idle (fetch_and_update_state calm toy (some idle) a_path a_version).1
fetch_and_update_state-SameLoad_example =
    fetch_and_update_state-SameLoad calm
      (λ path version size h. ground (arith, calm-sizes path version size h)) idle idle-IsWord toy
      a_path a_version

abbrev quiet : System
quiet = record { shedder = idle; running = []; accepted = 0 }

abbrev one_running : System
one_running = record { shedder = (should_shed 60 none idle).1; running = 60 ∷ []; accepted = 1 }

quiet-IsBounded : IsBounded quiet
quiet-IsBounded = record {
  max_word = omega arith;
  size_exact = refl;
  size_word = omega arith;
  requests_exact = refl;
  requests_word = omega arith;
  total_exact = refl;
  bounded = inl (omega arith);
}

quiet-Reach : Reach quiet one_running
unfolding should_shed
quiet-Reach = next start (begin quiet 60 none (omega arith) (omega arith) refl)

Reach-IsBounded_example : IsBounded one_running
Reach-IsBounded_example = Reach-IsBounded quiet-IsBounded quiet-Reach

to_status-from_status_example :
    to_status (from_status 404 true)
    ≡ (if (404 == 200) || has_code 404 codes_table then 404 else 500)
to_status-from_status_example = to_status-from_status 404 true
