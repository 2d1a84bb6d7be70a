-- ===== src/Frontend/Paginate.antt =====
-- internal/frontend/paginate.go. Go's `int` is ℤ; overflow is left out. The request's query values
-- are parameters: "" is an absent one. Go's `/` truncates towards zero.
pub mod Pages
use pkgsite.Prelude.{
  ℕ, zero, suc, ◌/◌, Bool, true, false, List, [], ◌∷◌, Text, is_empty, if◌then◌else◌,
}
use pkgsite.Prelude.Int.{ℤ, pos, negsuc, ◌+ℤ◌, ◌-ℤ◌, ◌*ℤ◌, ltb_ℤ}

pub record PaginationParams : Type 0 where
  pub page : ℤ
  pub limit : ℤ

pub record Pagination : Type 0 where
  pub limit : ℤ
  pub default_limit : ℤ
  pub max_limit : ℤ
  pub result_count : ℤ
  pub total_count : ℤ
  pub page : ℤ
  pub prev_page : ℤ
  pub next_page : ℤ
  pub start_offset : ℤ
  pub pages : List ℤ

abbrev pub default_num_pages_to_link : ℤ
default_num_pages_to_link = pos 5

-- Division by a positive size; a size of 0 panics in Go and is excluded by `positive_param`.
unfoldable pub div_ℤ : ℤ → ℤ → ℤ
div_ℤ (pos a) (pos b) = pos (a / b)
div_ℤ (pos a) (negsuc b) = pos 0 -ℤ pos (a / suc b)
div_ℤ (negsuc a) (pos b) = pos 0 -ℤ pos (suc a / b)
div_ℤ (negsuc a) (negsuc b) = pos (suc a / suc b)

unfoldable pub leb_ℤ : ℤ → ℤ → Bool
leb_ℤ a b = if ltb_ℤ b a then false else true

unfoldable pub num_pages : ℤ → ℤ → ℤ
unfolding div_ℤ ◌+ℤ◌ ◌-ℤ◌
num_pages page_size total_count = div_ℤ (total_count +ℤ page_size -ℤ pos 1) page_size

unfoldable pub offset : ℤ → ℤ → ℤ
unfolding leb_ℤ ◌-ℤ◌ ◌*ℤ◌
offset page limit = if leb_ℤ page (pos 1) then pos 0 else (page -ℤ pos 1) *ℤ limit

unfoldable pub prev : ℤ → ℤ
unfolding leb_ℤ ◌-ℤ◌
prev page = if leb_ℤ page (pos 1) then pos 0 else page -ℤ pos 1

unfoldable pub next : ℤ → ℤ → ℤ → ℤ
unfolding leb_ℤ num_pages ◌+ℤ◌
next page limit total_count =
    if leb_ℤ (num_pages limit total_count) page then pos 0 else page +ℤ pos 1

-- The variable `start` of `pagesToLink` after its two tests.
unfoldable pub first_page : ℤ → ℤ → ℤ → ℤ
unfolding div_ℤ ◌+ℤ◌ ◌-ℤ◌
first_page page total n =
    let start = page -ℤ div_ℤ n (pos 2) in
    let start' = if ltb_ℤ (total -ℤ start) n then total -ℤ n +ℤ pos 1 else start in
    if ltb_ℤ start' (pos 1) then pos 1 else start'

-- The loop of `pagesToLink`, with the rounds that `i < start + numPagesToLink` allows.
unfoldable pub link_loop : ℕ → ℤ → ℤ → List ℤ
unfolding leb_ℤ ◌+ℤ◌
link_loop zero i total = []
link_loop (suc n) i total =
    let rest = link_loop n (i +ℤ pos 1) total in if leb_ℤ i total then i ∷ rest else []

abbrev pub rounds : ℤ → ℕ
rounds (pos n) = n
rounds (negsuc n) = 0

unfoldable pub pages_to_link : ℤ → ℤ → ℤ → List ℤ
unfolding first_page link_loop
pages_to_link page total n = link_loop (rounds n) (first_page page total n) total

-- `positiveParam` of `newPaginationParams`; `atoi` is the first result of `strconv.Atoi`, whose
-- error is only logged.
unfoldable pub positive_param : (Text → ℤ) → Text → ℤ → ℤ
positive_param atoi a dflt =
    let val : ℤ = if is_empty a then pos 0 else atoi a in if ltb_ℤ val (pos 1) then dflt else val

unfoldable pub new_pagination_params : (Text → ℤ) → Text → Text → ℤ → PaginationParams
unfolding positive_param
new_pagination_params atoi page limit default_limit = record {
  page = positive_param atoi page (pos 1);
  limit = positive_param atoi limit default_limit;
}

-- The constants `defaultSearchLimit` and `maxSearchPageSize` of search.go.
unfoldable pub new_pagination : PaginationParams → ℤ → ℤ → Pagination
unfolding offset prev next pages_to_link num_pages
new_pagination params result_count total_count = record {
  limit = params.limit;
  default_limit = pos 25;
  max_limit = pos 100;
  result_count = result_count;
  total_count = total_count;
  page = params.page;
  prev_page = prev params.page;
  next_page = next params.page params.limit total_count;
  start_offset = offset params.page params.limit;
  pages = pages_to_link params.page (num_pages params.limit total_count) default_num_pages_to_link;
}
