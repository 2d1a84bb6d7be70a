-- ===== src/Frontend/UrlInfo/Parse.antt =====
-- What is known of the information that a URL path is parsed to.
use pkgsite.Prelude.{
  Bool, true, false, Text, Option, none, some, ◌≡◌, inl, inr, arith, Bool-cases, cut, trim_prefix,
  codes, if◌then◌else◌, ◌≢◌, ◌≤◌, ◌⊎◌, ℕ, leb, ltb, ◌&&◌, split, length, text_eq, text_eq_iff,
}
use mathlib.Core.Bool.{false≢true}
use pkgsite.Paths.{vcs_host_with_three_element_repo_name}
use pkgsite.Stdlib.{contains}
use pkgsite.Frontend.UrlInfo.{
  UrlPathInfo, first_part, second_part, trim_slashes, is_valid_path, checked,
  parse_details_url_path, parse_stdlib_url_path, extract_url_path_info,
}

module _ (check_import_path : Text → Bool) where
  abbrev pub IsValid : UrlPathInfo → Type 0
  IsValid info = is_valid_path check_import_path info.full_path ≡ true

  abbrev pub Accepts : Option UrlPathInfo → Type 0
  Accepts o = (info : UrlPathInfo) → o ≡ some info → IsValid info

  Accepts-none : Accepts none
  Accepts-none info h = ground arith

  Accepts-some : (i : UrlPathInfo) → IsValid i → Accepts (some i)
  Accepts-some i v info h = rw⁻¹ (some_injective h) v
    where
      some_injective : some i ≡ some info → i ≡ info
      some_injective e = cc

  Accepts-if :
      (b : Bool) (x y : Option UrlPathInfo) → Accepts x → Accepts y → Accepts (if b then x else y)
  Accepts-if true x y hx hy = hx
  Accepts-if false x y hx hy = hy

  Accepts-checked : (i : UrlPathInfo) → Accepts (checked check_import_path i)
  unfolding checked
  Accepts-checked i = elim (Bool-cases (is_valid_path check_import_path i.full_path)) [
    | inl good ↦ rw (checked, good) (Accepts-some i good)
    | inr bad ↦ rw (checked, bad) Accepts-none
  ]

  details_valid : (p : Text) → Accepts (parse_details_url_path check_import_path p)
  unfolding parse_details_url_path
  details_valid p = elim (Bool-cases (cut p b'@').2) [
    | inl versioned ↦
        rw (parse_details_url_path, versioned) (search (Accepts-if, Accepts-checked, Accepts-none))
    | inr plain ↦ rw (parse_details_url_path, plain) (Accepts-checked _)
  ]

  stdlib_valid : (p : Text) → Accepts (parse_stdlib_url_path check_import_path p)
  unfolding parse_stdlib_url_path
  stdlib_valid p =
      let c = cut p b'@' in
      elim (Bool-cases (is_valid_path check_import_path (trim_slashes c.0))) [
        | inl good ↦
            rw (parse_stdlib_url_path, good) (search (Accepts-if, Accepts-some, Accepts-none, good))
        | inr bad ↦ rw (parse_stdlib_url_path, bad) Accepts-none
      ]

  accepted-IsValid :
      (p : Text) (info : UrlPathInfo)
      → extract_url_path_info check_import_path p ≡ some info
      → IsValid info
  unfolding extract_url_path_info
  accepted-IsValid p = elim (Bool-cases (contains (cut (trim_prefix p (codes "/")) b'@').0)) [
    | inl std ↦ rw (extract_url_path_info, std) (stdlib_valid p)
    | inr other ↦ rw (extract_url_path_info, other) (details_valid p)
  ]

  -- The path can be imported. Under golang.org it goes on with dl, or with x and one more element; a
  -- host whose repositories have three elements is followed by two.
  abbrev pub IsPath : Text → Type 0
  IsPath path =
      (check_import_path path ≡ true)
      × ((first_part (split path b'/') ≡ codes "golang.org")
          → (2 ≤ length (split path b'/'))
            × ((second_part (split path b'/') ≡ codes "dl")
                ⊎ ((second_part (split path b'/') ≡ codes "x") × (3 ≤ length (split path b'/')))))
      × (vcs_host_with_three_element_repo_name (first_part (split path b'/')) ≡ true
          → first_part (split path b'/') ≢ codes "golang.org"
          → 3 ≤ length (split path b'/'))

  valid-imports :
      (path : Text) → is_valid_path check_import_path path ≡ true → check_import_path path ≡ true
  unfolding is_valid_path
  valid-imports path h = elim (Bool-cases (check_import_path path)) [
    | inl y ↦ y
    | inr n ↦ absurd (false≢true (rw n at h))
  ]

  -- The tests behind the import path's.
  tests :
      (first second : Text) (n : ℕ)
      → (if text_eq first (codes "golang.org")
          then (if ltb n 2
              then false
              else if text_eq second (codes "dl")
              then true
              else if text_eq second (codes "x")
              then leb 3 n
              else false)
          else if vcs_host_with_three_element_repo_name first && ltb n 3
          then false
          else true)
        ≡ true
      → ((first ≡ codes "golang.org")
          → (2 ≤ n) × ((second ≡ codes "dl") ⊎ ((second ≡ codes "x") × (3 ≤ n))))
        × (vcs_host_with_three_element_repo_name first ≡ true → first ≢ codes "golang.org" → 3 ≤ n)
  tests first second n h = ground (
    arith,
    h,
    text_eq_iff first (codes "golang.org"),
    text_eq_iff second (codes "dl"),
    text_eq_iff second (codes "x"),
  )

  valid-IsPath : (path : Text) → is_valid_path check_import_path path ≡ true → IsPath path
  unfolding is_valid_path
  valid-IsPath path h =
      let y = valid-imports path h in
      let t =
        tests (first_part (split path b'/')) (second_part (split path b'/'))
          (length (split path b'/')) (rw y at h) in
      (y, t.0, t.1)

  -- The full path that `ExtractURLPathInfo` accepts is one that `module.CheckImportPath` accepts; under
  -- golang.org it goes on with dl, or with x and one more element, and after a host whose repositories
  -- have three elements there are two more.
  pub extract_url_path_info-IsValid :
      (p : Text) (info : UrlPathInfo)
      → extract_url_path_info check_import_path p ≡ some info
      → IsPath info.full_path
  extract_url_path_info-IsValid p info h = valid-IsPath info.full_path (accepted-IsValid p info h)
