-- ===== src/Worker/LoadShedder.antt =====
-- internal/worker/loadshedding.go. The mutex makes each function one step. The sizes are uint64;
-- `requestsInFlight`, an int that goes down too, is kept as its bit pattern. The two
-- totals, which only count up, do not wrap here.
pub mod Bounded
use pkgsite.Prelude.{
  ℕ, ◌+◌, ◌-◌, ◌/◌, ◌%◌, ◌^◌, Bool, true, false, ◌&&◌, Option, none, some, ltb, leb, if◌then◌else◌,
}

abbrev pub u64_mod : ℕ
u64_mod = 2 ^ 64

abbrev pub add64 : ℕ → ℕ → ℕ
add64 a b = (a + b) % u64_mod

abbrev pub sub64 : ℕ → ℕ → ℕ
sub64 a b = (a + u64_mod - b) % u64_mod

abbrev pub min_db_processes_to_shed : ℕ
min_db_processes_to_shed = 5

-- `postgres.UserInfo`, as far as it is read.
pub record UserInfo : Type 0 where
  pub num_total : ℕ
  pub num_waiting : ℕ

pub record LoadShedder : Type 0 where
  pub max_size_in_flight : ℕ
  pub size_in_flight : ℕ
  pub requests_in_flight : ℕ
  pub requests_total : ℕ
  pub requests_shed : ℕ

-- The database is too busy; `none` is a nil `getDBInfo`.
unfoldable pub db_busy : Option UserInfo → Bool
db_busy none = false
db_busy (some ui) =
    leb min_db_processes_to_shed ui.num_total && ltb (ui.num_total / 2) ui.num_waiting

-- Whether to shed a request of this size, given what `getDBInfo` returns, and the new state. The
-- function that the caller defers is `release size` if it is not shed, and nothing otherwise.
unfoldable pub should_shed : ℕ → Option UserInfo → LoadShedder → Bool × LoadShedder
unfolding db_busy
should_shed size info ls =
    if ltb 0 ls.size_in_flight && ltb ls.max_size_in_flight (add64 ls.size_in_flight size)
    then (
      true,
      record ls { requests_total = ls.requests_total + 1; requests_shed = ls.requests_shed + 1 },
    )
    else if db_busy info
    then (
      true,
      record ls { requests_total = ls.requests_total + 1; requests_shed = ls.requests_shed + 1 },
    )
    else (
      false,
      record ls {
        requests_total = ls.requests_total + 1;
        size_in_flight = add64 ls.size_in_flight size;
        requests_in_flight = add64 ls.requests_in_flight 1;
      },
    )

unfoldable pub release : ℕ → LoadShedder → LoadShedder
release size ls = record ls {
  size_in_flight = sub64 ls.size_in_flight size;
  requests_in_flight = sub64 ls.requests_in_flight 1;
}
