-- ===== src/Frontend/FetchServer/NotFound/Redirects.antt =====
-- No page redirects to itself.
use pkgsite.Prelude.{
  ℕ, zero, suc, ◌+◌, ◌-◌, ◌≤◌, ◌<◌, Bool, true, false, not, ◌||◌, ◌&&◌, List, [], ◌∷◌, ◌++◌, Text,
  Option, none, some, ◌⊎◌, inl, inr, codes, text_eq, split, has_prefix, has_prefix-length,
  text_eq_refl, push_head, push_head-nonempty, length, ltb, leb, ◌==◌, if◌then◌else◌, ◌≡◌, ◌≢◌,
  refl, sym, ap, ◌∙◌, arith, Bool-cases, Option-cases,
}
use pkgsite.Frontend.FetchServer.{FetchResult, DbError}
use pkgsite.Frontend.FetchServer.NotFound.{
  Db, unit, search, Page, redirect, error_page, split_text, find_github, around,
  github_path_redirect, first_of, previous_fetch_status_and_response, path_not_found_error,
  keeps_from_canonical, other_page, page_of, serve_path_not_found_page,
}
use pkgsite.Frontend.FetchServer.Verdict.{Site}
use pkgsite.Frontend.UrlInfo.{is_supported_version}
use pkgsite.Stdlib.{contains}
use pkgsite.Version.{latest}

-- The length of a text that is split into parts.
abbrev joined_length : Text → List Text → ℕ
joined_length sep [] = 0
joined_length sep (p ∷ []) = length p
joined_length sep (p ∷ q ∷ ps) = length p + (length sep + joined_length sep (q ∷ ps))

joined_length-push_head :
    (sep : Text) (c : ℕ) (ps : List Text)
    → ps ≢ []
    → joined_length sep (push_head c ps) ≡ suc (joined_length sep ps)
joined_length-push_head sep c [] h = absurd (h refl)
joined_length-push_head sep c (p ∷ []) h = refl
joined_length-push_head sep c (p ∷ q ∷ ps) h = omega arith

joined_length-cons :
    (sep : Text) (ps : List Text)
    → ps ≢ []
    → joined_length sep ([] ∷ ps) ≡ length sep + joined_length sep ps
joined_length-cons sep [] h = absurd (h refl)
joined_length-cons sep (p ∷ ps) h = omega arith

split_text-nonempty : (sep : Text) (n : ℕ) (s : Text) → split_text sep n s ≢ []
unfolding split_text
split_text-nonempty sep zero [] = λ e. cc
split_text-nonempty sep (suc n) [] = λ e. cc
split_text-nonempty sep (suc n) (c ∷ s) = split_text-nonempty sep n s
split_text-nonempty sep zero (c ∷ s) = λ e. elim (Bool-cases (has_prefix (c ∷ s) sep)) [
  | inl y ↦
      (let f : split_text sep zero (c ∷ s) ≡ [] ∷ split_text sep (length sep - 1) s =
          rw (split_text, y) refl in
        cc)
  | inr n ↦ push_head-nonempty c (split_text sep zero s) (sym (rw (split_text, n) refl) ∙ e)
]

-- `strings.Split` loses the separators alone.
joined_length-split_text :
    (d : ℕ) (sep : Text) (n : ℕ) (s : Text)
    → n ≤ length s
    → joined_length (d ∷ sep) (split_text (d ∷ sep) n s) + n ≡ length s
unfolding split_text
joined_length-split_text d sep zero [] h = refl
joined_length-split_text d sep (suc n) [] h = absurd (omega arith)
joined_length-split_text d sep (suc n) (c ∷ s) h =
    omega (arith, joined_length-split_text d sep n s (omega arith))
joined_length-split_text d sep zero (c ∷ s) h = elim (Bool-cases (has_prefix (c ∷ s) (d ∷ sep))) [
  | inl y ↦
      (let short = has_prefix-length (c ∷ s) (d ∷ sep) y in
        rw (split_text, y)
          (omega (
            arith,
            joined_length-cons (d ∷ sep) (split_text (d ∷ sep) (length (d ∷ sep) - 1) s)
                (split_text-nonempty (d ∷ sep) (length (d ∷ sep) - 1) s),
            joined_length-split_text d sep (length (d ∷ sep) - 1) s (omega arith),
          )))
  | inr n ↦
      rw (split_text, n)
        (omega (
          arith,
          joined_length-push_head (d ∷ sep) c (split_text (d ∷ sep) zero s)
              (split_text-nonempty (d ∷ sep) zero s),
          joined_length-split_text d sep zero s (omega arith),
        ))
]

length-append : (s t : Text) → length (s ++ t) ≡ length s + length t
length-append [] t = omega arith
length-append (c ∷ s) t = omega (arith, length-append s t)

around-shorter :
    (sep : Text) (ps : List Text) (p : Text)
    → around ps ≡ some p
    → length p + length sep ≡ joined_length sep ps
around-shorter sep [] p e = cc
around-shorter sep (q ∷ []) p e = cc
around-shorter sep (q ∷ r ∷ []) p e =
    let same : some (q ++ r) ≡ some p = e in
    let f : q ++ r ≡ p = cc in rw (← f) (omega (arith, length-append q r))
around-shorter sep (q ∷ r ∷ t ∷ ps) p e = cc

-- The redirection for GitHub's paths shortens the path.
pub github_path_redirect_shorter :
    (full_path p : Text) → github_path_redirect full_path ≡ some p → length p < length full_path
unfolding github_path_redirect split_text
github_path_redirect_shorter full_path p e =
    let parts = split full_path b'/' in
    let sep = find_github full_path in
    elim (Bool-cases
      (leb (length parts) 3 || not (text_eq (first_of parts) (codes "github.com")))) [
        | inl y ↦
            (let none_found : github_path_redirect full_path ≡ none =
                rw (github_path_redirect, y) refl in
              cc)
        | inr n ↦
            (let found : github_path_redirect full_path
                  ≡ around (split_text (b'/' ∷ sep) zero full_path) =
                rw (github_path_redirect, n) refl in
              omega (
                arith,
                around-shorter (b'/' ∷ sep) (split_text (b'/' ∷ sep) zero full_path) p
                    (sym found ∙ e),
                joined_length-split_text b'/' sep zero full_path (omega arith),
              ))
      ]

-- A redirection to the page of a path at a version is not one to the page that redirects.
abbrev pub Elsewhere : Text → Text → Page → Type 0
Elsewhere full_path requested (redirect (unit path module_path version)) =
    (path ≢ full_path) ⊎ (version ≢ requested)
Elsewhere full_path requested _ = Unit

Elsewhere-if :
    (full_path requested : Text) (b : Bool) (x y : Page)
    → (b ≡ true → Elsewhere full_path requested x)
    → (b ≡ false → Elsewhere full_path requested y)
    → Elsewhere full_path requested (if b then x else y)
Elsewhere-if full_path requested true x y hx hy = hx refl
Elsewhere-if full_path requested false x y hx hy = hy refl

differ : (s t : Text) → text_eq s t ≡ false → s ≢ t
differ s t n = λ e. (let y = text_eq_refl s in let m : text_eq s s ≡ false = rw (← e) at n in cc)

module _ (site : Site) (db : Db) (full_path requested : Text) where
  abbrev Fine : Page → Type 0
  Fine page = Elsewhere full_path requested page

  Fine-if :
      (b : Bool) (x y : Page)
      → (b ≡ true → Fine x)
      → (b ≡ false → Fine y)
      → Fine (if b then x else y)
  Fine-if = Elsewhere-if full_path requested

  path_not_found_error-Elsewhere : Fine (path_not_found_error site db full_path requested)
  unfolding path_not_found_error
  path_not_found_error-Elsewhere =
      Fine-if (not (is_supported_version site.semver full_path requested)) _ _ (λ _. tt)
        λ _.
          Fine-if (contains full_path) _ _ (λ _. Fine-if site.std_fetch _ _ (λ _. tt) λ _. tt)
            λ _. tt

  other_page-Elsewhere : (fr : FetchResult) → Fine (other_page site db full_path requested fr)
  unfolding other_page
  other_page-Elsewhere fr = elim (Option-cases (github_path_redirect full_path)) [
    | inl e ↦
        rw (other_page, e)
          (Fine-if ((fr.status == 404) && ltb site.interval (db.now - fr.updated_at)) _ _
            (λ _. path_not_found_error-Elsewhere) λ _. nested (db.nested_modules full_path))
    | inr (p, e) ↦
        rw (other_page, e)
          (inl λ same.
            (let short = github_path_redirect_shorter full_path p e in
              omega (arith, short, ap length same)))
  ]
    where
      nested :
          (o : ℕ ⊎ DbError)
          → Fine (elim o [
            | inl (suc n) ↦ redirect (search full_path)
            | _ ↦ error_page fr.status fr.response
          ])
      nested (inl zero) = tt
      nested (inl (suc n)) = tt
      nested (inr e) = tt

  page_of-Elsewhere : (fr : FetchResult) → Fine (page_of site db full_path requested fr)
  unfolding page_of
  page_of-Elsewhere fr =
      Fine-if ((fr.status == 200) || (fr.status == 290)) _ _
        (λ _.
          Fine-if (not (text_eq fr.resolved_version requested)) _ _
            (λ n. inr (differ fr.resolved_version requested (ground arith)))
            λ _. path_not_found_error-Elsewhere)
        λ _.
          Fine-if ((fr.status == 302) || (fr.status == 491)) _ _
            (λ _.
              Fine-if (text_eq fr.go_mod_path full_path) _ _ (λ _. tt)
                λ n.
                  Fine-if (keeps_from_canonical site db (db.version_map fr.go_mod_path latest)) _ _
                    (λ _. tt) λ _. inl (differ fr.go_mod_path full_path n))
            λ _.
              Fine-if (fr.status == 500) _ _ (λ _. path_not_found_error-Elsewhere)
                λ _. other_page-Elsewhere fr

  -- The page for a path that was not found never redirects to the page of the same path at the same
  -- version, whatever the database holds, for paths outside the standard library. A way round
  -- through other pages is not excluded.
  pub serve_path_not_found_page-Elsewhere :
      (module_path : Text)
      → contains full_path ≡ false
      → Elsewhere full_path requested
          (serve_path_not_found_page site db full_path module_path requested)
  unfolding serve_path_not_found_page
  serve_path_not_found_page-Elsewhere module_path h =
      rw h (previous (previous_fetch_status_and_response site db full_path module_path requested))
    where
      previous :
          (o : Option FetchResult)
          → Fine (elim o [
            | none ↦ path_not_found_error site db full_path requested
            | some fr ↦ page_of site db full_path requested fr
          ])
      previous none = path_not_found_error-Elsewhere
      previous (some fr) = page_of-Elsewhere fr
