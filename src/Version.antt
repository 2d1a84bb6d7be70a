-- ===== src/Version.antt =====
-- internal/version/version.go: the types of versions, their order, the latest one.
pub mod Later
pub mod Latest
pub mod Sorting
use mathlib.Core.Bool.{beq}
use pkgsite.Prelude.{
  ℕ, Bool, not, ◌&&◌, ◌||◌, List, [], ◌∷◌, Text, Option, none, some, codes, is_empty, has_suffix,
  count_byte, is_digit, leb, ◌==◌, if◌then◌else◌,
}
use pkgsite.Prelude.Regexp.{Regexp, literal, times, plus, matches}
use pkgsite.Semver.{Semver, is_gt}

pub data VersionType : Type 0 where
  release prerelease pseudo : VersionType

-- The values of the constants, which are those of a database enum.
unfoldable pub type_string : VersionType → Text
type_string release = codes "release"
type_string prerelease = codes "prerelease"
type_string pseudo = codes "pseudo"

abbrev pub latest : Text
latest = codes "latest"

abbrev pub main : Text
main = codes "main"

abbrev pub master : Text
master = codes "master"

abbrev digit : Regexp
digit = Regexp.chars is_digit

abbrev is_alnum : ℕ → Bool
is_alnum c = (leb b'A' c && leb c b'Z') || (leb b'a' c && leb c b'z') || (leb b'0' c && leb c b'9')

abbrev dots : Regexp
dots = Regexp.alt (literal (codes "0.0-")) (
    Regexp.seq (plus digit) (
      Regexp.seq (literal (codes ".")) (
        Regexp.seq (plus digit) (
          Regexp.seq (literal (codes "-")) (
            Regexp.seq
              (Regexp.alt Regexp.empty (
                Regexp.seq (Regexp.star (Regexp.chars (λ c. not (c == b'+'))))
                  (literal (codes "."))))
              (literal (codes "0.")))))))

abbrev pub pseudo_version_re : Regexp
pseudo_version_re = Regexp.seq (literal (codes "v")) (
    Regexp.seq (plus digit) (
      Regexp.seq (literal (codes ".")) (
        Regexp.seq dots (
          Regexp.seq (times 14 digit) (
            Regexp.seq (literal (codes "-")) (
              Regexp.seq (plus (Regexp.chars is_alnum))
                (Regexp.alt Regexp.empty (literal (codes "+incompatible")))))))))

unfoldable pub is_pseudo : Text → Bool
unfolding count_byte matches is_digit
is_pseudo v = leb 2 (count_byte v b'-') && matches pseudo_version_re v

unfoldable pub is_incompatible : Text → Bool
unfolding has_suffix
is_incompatible v = has_suffix v (codes "+incompatible")

unfoldable pub remove_if : (Text → Bool) → List Text → List Text
remove_if f [] = []
remove_if f (x ∷ xs) = if f x then remove_if f xs else x ∷ remove_if f xs

-- A result with a non-nil error is `none`; the message is left out.
module _ (semver : Semver) where
  unfoldable pub parse_type : Text → Option VersionType
  parse_type version =
      if not (semver.is_valid version)
      then none
      else if is_pseudo version
      then some pseudo
      else if not (is_empty (semver.prerelease version))
      then some prerelease
      else some release

  unfoldable pub later : Text → Text → Bool
  later v1 v2 =
      let rel1 = is_empty (semver.prerelease v1) in
      let rel2 = is_empty (semver.prerelease v2) in
      if rel1 && rel2
      then is_gt (semver.cmp v1 v2)
      else if not (beq rel1 rel2)
      then rel1
      else if beq (is_pseudo v1) (is_pseudo v2)
      then is_gt (semver.cmp v1 v2)
      else not (is_pseudo v1)

  -- The loop of `LatestOf`; the first argument is the variable `latest`.
  unfoldable pub latest_from : Text → List Text → Text
  latest_from best [] = best
  latest_from best (v ∷ vs) = latest_from (if later v best then v else best) vs

  unfoldable pub latest_of : List Text → Text
  latest_of [] = []
  latest_of (v ∷ vs) = latest_from v vs

  -- `RemoveIf` with the test of `LatestVersion`.
  unfoldable pub compatible : List Text → List Text
  compatible versions = remove_if (λ v. is_incompatible v || is_pseudo v) versions

  unfoldable pub latest_version : List Text → (Text → Option Bool) → Option Text
  latest_version versions has_go_mod =
      let best = latest_of versions in
      let compat = latest_of (compatible versions) in
      if is_empty best
      then some []
      else if not (is_incompatible best)
      then some best
      else if is_empty compat
      then some best
      else elim (has_go_mod compat) [
        | none ↦ none
        | some has ↦ if has then some compat else some best
      ]
