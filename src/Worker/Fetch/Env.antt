-- ===== src/Worker/Fetch/Env.antt =====
-- What the fetcher calls outside the file internal/worker/fetch.go, as a parameter: the proxy, the
-- fetching of a module, the database and the page cache answer by functions of their arguments. A
-- run asks each question once, so the answers may depend on the database's state in any way. The
-- calls that write are recorded as effects, in their order.
use pkgsite.Prelude.{◌≡◌, refl, ◌⊎◌, inl, inr, ℕ, Bool, List, [], ◌∷◌, ◌++◌, Text, Option}
use pkgsite.Derrors.{Error}
use pkgsite.Worker.LoadShedder.{UserInfo}

pub data Effect : Type 0 where
  insert_new_version : Text → Text → Effect
  update_latest_status : Text → ℕ → Effect
  update_latest : Text → Effect
  insert_module : Text → Text → Effect
  cache_delete : Text → Effect
  cache_delete_prefix : Text → Effect
  delete_module_row : Text → Text → Effect
  update_latest_good : Text → Effect
  upsert_version_map : Text → Text → Text → ℕ → Effect
  reconcile_search : Text → Text → ℕ → Effect
  update_version_state : Text → Text → ℕ → Effect

pub data Answer (A : Type 0) : Type 0 where
  ok : A → Answer A
  err : Error → Answer A

-- To split on an answer and keep the equation.
pub answer_cases :
    {A : Type 0} (a : Answer A) → ((e : Error) × (a ≡ err e)) ⊎ ((x : A) × (a ≡ ok x))
answer_cases (err e) = inl (e, refl)
answer_cases (ok x) = inr (x, refl)

-- `fetch.FetchResult`, without the module itself.
pub record FetchResult : Type 0 where
  pub mod_path : Text
  pub requested_version : Text
  pub resolved_version : Text
  pub go_mod_path : Text
  pub status : ℕ
  pub error : Option Error

-- `fetchTask`, without the timings.
pub record FetchTask : Type 0 where
  pub mod_path : Text
  pub requested_version : Text
  pub resolved_version : Text
  pub go_mod_path : Text
  pub status : ℕ
  pub error : Option Error
  pub main_version : Text
  pub master_version : Text

-- `latest_versions` is `fetch.LatestModuleVersions`: some information, nothing, or an error.
pub record Env : Type 0 where
  pub get_info : Text → Text → Answer Text
  pub zip_size : Text → Text → Answer ℕ
  pub db_info : Option UserInfo
  pub max_zip_size : ℕ
  pub fetch_disabled : Bool
  pub fetch_module : Text → Text → FetchResult
  pub resolve : Text → Text → Answer Text
  pub is_excluded : Text → Text → Bool
  pub latest_versions : Text → Answer (Option Text)
  pub insert_new : Text → Text → Option Error
  pub put_latest_status : Text → ℕ → Option Error
  pub put_latest : Text → Option Error
  pub insert : Text → Text → Answer Bool
  pub has_cache : Bool
  pub series_path : Text → Text
  pub delete_row : Text → Text → Option Error
  pub put_latest_good : Text → Option Error
  pub upsert : Text → Text → Text → Option Error
  pub has_state : Text → Text → Option Error
  pub reconcile : Text → Text → ℕ → Option Error
  pub put_state : Text → Text → ℕ → Option Error

-- A value with the effects that came before it.
abbrev pub Traced : Type 0 → Type 0
Traced A = A × List Effect

infixl 5 ◌>>=◌
abbrev pub ◌>>=◌ : {A B : Type 0} → Traced A → (A → Traced B) → Traced B
m >>= f = ((f m.0).0, m.1 ++ (f m.0).1)

abbrev pub pure : {A : Type 0} → A → Traced A
pure a = (a, [])

-- A call that writes: its answer, and its effect.
abbrev pub call : {A : Type 0} → A → Effect → Traced A
call a e = (a, e ∷ [])
