-- ===== src/Frontend/FetchServer.antt =====
-- internal/frontend/fetchserver/fetch.go: a user asks for a path that is not in the database. The
-- candidate module paths are queued for the worker, and the database is polled for each of them.
-- A request is given what the database answers, look after look; `derrors.Wrap`, which adds only
-- to messages, is left out, and so are logs and metrics.
pub mod Verdict
pub mod Looks
pub mod Served
pub mod Shown
pub mod NotFound
pub mod Update
use pkgsite.Prelude.{
  contains_text, ℕ, ◌-◌, Bool, false, not, ◌||◌, List, [], ◌∷◌, ◌++◌, Text, Option, none, some,
  codes, ◌⊎◌, inl, inr, is_empty, map, leb, ltb, ◌==◌, if◌then◌else◌,
}
use pkgsite.Derrors.{
  Error, root, is_error, to_status, not_found, alternative_module, db_module_insert_invalid,
  reprocess_status_ok,
}
use pkgsite.Stdlib

-- `statusNotFoundInVersionMap`.
abbrev pub not_in_version_map : ℕ
not_in_version_map = 470

-- An error of the database, with its message.
pub record DbError : Type 0 where
  pub error : Error
  pub message : Text

-- `internal.VersionMap`, as far as it is read; times are numbers.
pub record VersionMap : Type 0 where
  pub module_path : Text
  pub go_mod_path : Text
  pub resolved_version : Text
  pub status : ℕ
  pub error : Text
  pub updated_at : ℕ

-- The errors of a `fetchResult`: `module_does_not_exist` and `path_does_not_exist_in_module` are the
-- variables of fetch.go, `recorded` is `errors.New(vm.Error)`, `internal` the one for status 500.
pub data FetchError : Type 0 where
  module_does_not_exist path_does_not_exist_in_module alternative deadline_exceeded queueing :
      FetchError
  recorded internal : Text → FetchError
  database : DbError → FetchError

-- What a user is told, and the path shown.
pub data Response : Type 0 where
  empty oops : Response
  still_working no_valid_module_path not_a_valid_path not_processed no_packages not_found_text :
      Text → Response
  module_exists : Text → Text → Response
  status_text : ℕ → Response

pub record FetchResult : Type 0 where
  pub module_path : Text
  pub go_mod_path : Text
  pub status : ℕ
  pub err : Option FetchError
  pub response : Response
  pub updated_at : ℕ
  pub resolved_version : Text

-- The text of an error, as far as it is known: enough for `strings.Contains`.
unfoldable pub message : FetchError → Text
message module_does_not_exist = codes "module does not exist"
message path_does_not_exist_in_module = codes "path does not exist in module"
message alternative = codes "alternative module"
message deadline_exceeded = codes "context deadline exceeded"
message queueing = []
message (recorded m) = m
message (internal m) = codes "\"Internal Server Error\": " ++ m
message (database e) = e.message

abbrev pub canceling : Text
canceling = codes "pq: canceling statement due to user request"

-- `fr.err != nil && strings.Contains(fr.err.Error(), text)`.
unfoldable pub says : Option FetchError → Text → Bool
unfolding message contains_text
says none text = false
says (some e) text = contains_text (message e) text

-- What the database answers to one look, at the time `now`: the row of version_map, whether the
-- row's unit exists, and whether the context is done at the end.
pub record Look : Type 0 where
  pub version_map : VersionMap ⊎ DbError
  pub unit : Option DbError
  pub now : ℕ
  pub context_done : Bool

unfoldable pub fetch_result_from_version_map : VersionMap → FetchResult
fetch_result_from_version_map vm = record {
  module_path = vm.module_path;
  go_mod_path = vm.go_mod_path;
  status = vm.status;
  err = if is_empty vm.error then none else some (recorded vm.error);
  response = empty;
  updated_at = vm.updated_at;
  resolved_version = [];
}

abbrev pub with_status : FetchResult → ℕ → Option FetchError → FetchResult
with_status fr status err = record fr { status = status; err = err }

-- The look at the unit, for a row of a module that exists.
unfoldable pub check_unit : FetchResult → Option DbError → FetchResult
unfolding is_error
check_unit fr (some e) =
    if is_error e.error not_found
    then with_status fr 404 (some path_does_not_exist_in_module)
    else with_status fr 500 (some (database e))
check_unit fr none = with_status fr 200 fr.err

-- `checkForPath` from the switch on.
unfoldable pub check_row : ℕ → VersionMap → Look → FetchResult
unfolding fetch_result_from_version_map to_status check_unit
check_row interval vm look =
    let fr = fetch_result_from_version_map vm in
    if (fr.status == 404)
      || (fr.status == to_status (some (root db_module_insert_invalid)))
      || (fr.status == 500)
    then (if ltb interval (look.now - vm.updated_at)
        then with_status fr not_in_version_map fr.err
        else if fr.status == 500
        then with_status fr 500 (some (internal vm.error))
        else with_status fr fr.status (some module_does_not_exist))
    else if fr.status == to_status (some (root alternative_module))
    then with_status fr fr.status (some alternative)
    else if leb (to_status (some (root reprocess_status_ok))) fr.status
    then with_status fr not_in_version_map fr.err
    else if leb 400 fr.status
    then with_status fr 404 (some module_does_not_exist)
    else check_unit fr look.unit

abbrev pub new_result : Text → ℕ → Option FetchError → FetchResult
new_result module_path status err = record {
  module_path = module_path;
  go_mod_path = [];
  status = status;
  err = err;
  response = empty;
  updated_at = 0;
  resolved_version = [];
}

-- `checkForPath` after the database's answer for the row.
unfoldable pub look_up : ℕ → Text → Look → VersionMap ⊎ DbError → FetchResult
unfolding check_row to_status is_error
look_up interval module_path look (inl vm) = check_row interval vm look
look_up interval module_path look (inr e) =
    new_result module_path
      (if is_error e.error not_found then not_in_version_map else to_status (some e.error))
      (some (database e))

-- `checkForPath`: the deferred function runs last.
unfoldable pub check_for_path : ℕ → Text → Look → FetchResult
unfolding look_up says
check_for_path interval module_path look =
    let fr = look_up interval module_path look look.version_map in
    if look.context_done || says fr.err canceling
    then with_status fr 408 (some deadline_exceeded)
    else fr

-- The loop of `pollForPath` on the looks at the ticks before the context is done; fr is the result
-- of the last one.
unfoldable pub poll_from : ℕ → Text → FetchResult → List Look → FetchResult
unfolding check_for_path
poll_from interval module_path fr [] = with_status fr 408 (some deadline_exceeded)
poll_from interval module_path fr (look ∷ looks) =
    let checked = check_for_path interval module_path look in
    let rest = poll_from interval module_path checked looks in
    if not (checked.status == not_in_version_map) then checked else rest

unfoldable pub poll_for_path : ℕ → Text → List Look → FetchResult
unfolding poll_from
poll_for_path interval module_path looks =
    poll_from interval module_path (new_result module_path 0 none) looks

-- What happens to one module path: the first look, whether it can be queued, the later looks.
pub record Run : Type 0 where
  pub first : Look
  pub queued : Bool
  pub later : List Look

-- One goroutine of `checkPossibleModulePaths`.
unfoldable pub check_module_path : ℕ → Bool → (Text → Run) → Text → FetchResult
unfolding check_for_path poll_for_path
check_module_path interval should_queue runs module_path =
    let run = runs module_path in
    let fr = check_for_path interval module_path run.first in
    if not should_queue || not (fr.status == not_in_version_map)
    then fr
    else if not run.queued
    then with_status fr 500 (some queueing)
    else poll_for_path interval module_path run.later

-- Each goroutine writes its own place of the results.
unfoldable pub check_possible_module_paths : ℕ → Bool → (Text → Run) → List Text → List FetchResult
unfolding check_module_path
check_possible_module_paths interval should_queue runs module_paths =
    map (check_module_path interval should_queue runs) module_paths
