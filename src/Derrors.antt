-- ===== src/Derrors.antt =====
-- internal/derrors/derrors.go: the semantic errors and the status codes that stand for them. An
-- error of the program is a chain of wrappings around a root; messages are left out.
pub mod Status
use pkgsite.Prelude.{ℕ, Bool, false, List, [], ◌∷◌, Option, none, some, ◌==◌, if◌then◌else◌}

-- The sentinel values of the `var` block.
pub data Sentinel : Type 0 where
  unsupported has_incomplete_packages not_found not_fetched invalid_argument : Sentinel
  bad_module excluded alternative_module module_too_large shedding_load cleaned : Sentinel
  unknown proxy_timed_out proxy_error vuln_db_error : Sentinel
  package_build_context_not_supported package_max_imports_limit_exceeded : Sentinel
  package_max_file_size_limit_exceeded package_documentation_html_too_large : Sentinel
  package_bad_import_path package_invalid_contents db_module_insert_invalid : Sentinel
  reprocess_status_ok reprocess_has_incomplete_packages reprocess_bad_module : Sentinel
  reprocess_alternative reprocess_db_module_insert_invalid : Sentinel

-- The place of a sentinel in the `var` block: its identity, which `errors.Is` compares.
unfoldable pub identity : Sentinel → ℕ
identity unsupported = 0
identity has_incomplete_packages = 1
identity not_found = 2
identity not_fetched = 3
identity invalid_argument = 4
identity bad_module = 5
identity excluded = 6
identity alternative_module = 7
identity module_too_large = 8
identity shedding_load = 9
identity cleaned = 10
identity unknown = 11
identity proxy_timed_out = 12
identity proxy_error = 13
identity vuln_db_error = 14
identity package_build_context_not_supported = 15
identity package_max_imports_limit_exceeded = 16
identity package_max_file_size_limit_exceeded = 17
identity package_documentation_html_too_large = 18
identity package_bad_import_path = 19
identity package_invalid_contents = 20
identity db_module_insert_invalid = 21
identity reprocess_status_ok = 22
identity reprocess_has_incomplete_packages = 23
identity reprocess_bad_module = 24
identity reprocess_alternative = 25
identity reprocess_db_module_insert_invalid = 26

-- `wrap` is `fmt.Errorf` with %w or a `StackError`, which `errors.Is` looks through; `opaque` is
-- `fmt.Errorf` with %v, which it does not; `other` is an error of another package.
pub data Error : Type 0 where
  root : Sentinel → Error
  wrap : Error → Error
  opaque : Error → Error
  other : Error

-- `errors.Is(err, s)`.
unfoldable pub is_error : Error → Sentinel → Bool
unfolding identity
is_error (root t) s = identity t == identity s
is_error (wrap e) s = is_error e s
is_error (opaque e) s = false
is_error other s = false

pub record Code : Type 0 where
  pub sentinel : Sentinel
  pub code : ℕ

abbrev code_of : Sentinel → ℕ → Code
code_of s n = record { sentinel = s; code = n }

unfoldable pub codes_table : List Code
codes_table =
    code_of not_found 404
    ∷ code_of invalid_argument 400
    ∷ code_of excluded 403
    ∷ code_of shedding_load 503
    ∷ code_of has_incomplete_packages 290
    ∷ code_of db_module_insert_invalid 480
    ∷ code_of not_fetched 481
    ∷ code_of bad_module 490
    ∷ code_of alternative_module 491
    ∷ code_of module_too_large 492
    ∷ code_of cleaned 493
    ∷ code_of proxy_timed_out 550
    ∷ code_of proxy_error 551
    ∷ code_of vuln_db_error 552
    ∷ code_of reprocess_status_ok 520
    ∷ code_of reprocess_has_incomplete_packages 521
    ∷ code_of reprocess_bad_module 540
    ∷ code_of reprocess_alternative 541
    ∷ code_of reprocess_db_module_insert_invalid 542
    ∷ code_of package_build_context_not_supported 600
    ∷ code_of package_max_imports_limit_exceeded 601
    ∷ code_of package_max_file_size_limit_exceeded 602
    ∷ code_of package_documentation_html_too_large 603
    ∷ code_of package_invalid_contents 604
    ∷ code_of package_bad_import_path 605
    ∷ []

-- The loop of `FromStatus`: the first entry with the code.
unfoldable pub sentinel_of : ℕ → List Code → Sentinel
sentinel_of n [] = unknown
sentinel_of n (c ∷ cs) = if c.code == n then c.sentinel else sentinel_of n cs

-- `has_format` says that the format string is not empty. A nil error is `none`.
unfoldable pub from_status : ℕ → Bool → Option Error
unfolding codes_table sentinel_of
from_status code has_format =
    if code == 200
    then none
    else if has_format
    then some (wrap (root (sentinel_of code codes_table)))
    else some (root (sentinel_of code codes_table))

-- The loop of `ToStatus`.
unfoldable pub status_of : Error → List Code → ℕ
unfolding is_error
status_of e [] = 500
status_of e (c ∷ cs) = if is_error e c.sentinel then c.code else status_of e cs

unfoldable pub to_status : Option Error → ℕ
unfolding codes_table status_of
to_status none = 200
to_status (some e) = status_of e codes_table

unfoldable pub to_reprocess_status : ℕ → ℕ
unfolding to_status
to_reprocess_status status =
    if status == 200
    then to_status (some (root reprocess_status_ok))
    else if status == to_status (some (root has_incomplete_packages))
    then to_status (some (root reprocess_has_incomplete_packages))
    else if status == to_status (some (root bad_module))
    then to_status (some (root reprocess_bad_module))
    else if status == to_status (some (root alternative_module))
    then to_status (some (root reprocess_alternative))
    else if status == to_status (some (root db_module_insert_invalid))
    then to_status (some (root reprocess_db_module_insert_invalid))
    else status

-- `Wrap`, `Add` and `WrapStack` on the error that a pointer holds.
unfoldable pub wrap_error : Option Error → Option Error
wrap_error none = none
wrap_error (some e) = some (wrap e)

unfoldable pub add_error : Option Error → Option Error
add_error none = none
add_error (some e) = some (opaque e)
