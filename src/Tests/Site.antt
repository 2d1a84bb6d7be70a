-- ===== src/Tests/Site.antt =====
-- Examples of internal/frontend and of the paths.
use pkgsite.Prelude.{ℕ, ◌+◌, ◌≤◌, ◌<◌, Bool, true, Text, codes, ◌≡◌, refl, arith, text_eq}
use pkgsite.Prelude.Int.{pos}
use pkgsite.Paths.{Modver}
use pkgsite.Frontend.Paginate.{pages_to_link}
use pkgsite.Frontend.Paginate.Pages.{up, pages_to_link-up}
use pkgsite.Frontend.UrlInfo.{UrlPathInfo, extract_url_path_info}
use pkgsite.Frontend.UrlInfo.Parse.{IsPath, extract_url_path_info-IsValid}

pages_to_link-up_example :
    (s m : ℕ) × (pages_to_link (pos 9) (pos 10) (pos 5) ≡ up s m)
    × (0 < s)
    × (s ≤ 9)
    × (9 < s + m)
    × (s + m ≤ 11)
    × (m ≡ 5)
pages_to_link-up_example = pages_to_link-up 9 10 5 (omega arith) (omega arith) (omega arith)

abbrev a_modver : Modver
a_modver = record { path = codes "m.com"; version = codes "v1.2.3" }

abbrev any_path : Text → Bool
any_path p = true

abbrev an_info : UrlPathInfo
an_info = record {
  full_path = codes "m.com/p";
  module_path = codes "m.com";
  requested_version = codes "v1";
}

extract_url_path_info-IsValid_example : IsPath any_path an_info.full_path
unfolding extract_url_path_info text_eq
extract_url_path_info-IsValid_example =
    extract_url_path_info-IsValid any_path (codes "/m.com@v1/p") an_info refl
