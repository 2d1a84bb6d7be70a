-- ===== src/Stdlib.antt =====
-- internal/stdlib/stdlib.go: the standard library's versions and the tags of the Go repository.
-- Errors are `none`; their messages are left out. `refs` of the Go repository is a parameter.
use mathlib.Core.List.{reverse}
use pkgsite.Prelude.{
  ℕ, zero, suc, ◌-◌, Bool, false, not, ◌&&◌, ◌||◌, List, [], ◌∷◌, ◌++◌, Text, Option, none, some,
  codes, text_eq, is_empty, has_prefix, trim_prefix, trim_suffix, cut, is_digit, length, take, drop,
  get_elem?, ltb, ◌==◌, if◌then◌else◌,
}
use pkgsite.Semver.{Semver, is_lt, is_gt}
use pkgsite.Version.{release, latest, master, is_pseudo, parse_type}

abbrev pub module_path : Text
module_path = codes "std"

-- `SupportedBranches[tag]`.
unfoldable pub supported_branch : Text → Bool
unfolding text_eq
supported_branch s = text_eq s master

abbrev pub contains_byte : Text → ℕ → Bool
contains_byte [] b = false
contains_byte (c ∷ s) b = c == b || contains_byte s b

-- `Contains`: the first component of the path lacks a dot.
unfoldable pub contains : Text → Bool
unfolding cut
contains path = not (contains_byte (cut path b'/').0 b'.')

-- The longest run of digits at the front, and the rest.
unfoldable pub span_digits : Text → Text × Text
unfolding is_digit
span_digits [] = ([], [])
span_digits (c ∷ s) =
    let rest = span_digits s in if is_digit c then (c ∷ rest.0, rest.1) else ([], c ∷ s)

-- The groups of `tagRegexp`: 1 (in two parts), the digits of 2, 4 and 5; an absent one is empty.
pub record TagMatch : Type 0 where
  pub major : Text
  pub minor : Text
  pub patch : Text
  pub pre_type : Text
  pub pre_number : Text

-- The optional group 3 and the end: (beta|rc) and digits, or nothing.
unfoldable pub match_prerelease : Text → TagMatch → Option TagMatch
unfolding has_prefix span_digits
match_prerelease s m =
    let beta = span_digits (drop 4 s) in
    let rc = span_digits (drop 2 s) in
    if is_empty s
    then some m
    else if has_prefix s (codes "beta") && (not (is_empty beta.0) && is_empty beta.1)
    then some (record m { pre_type = codes "beta"; pre_number = beta.0 })
    else if has_prefix s (codes "rc") && (not (is_empty rc.0) && is_empty rc.1)
    then some (record m { pre_type = codes "rc"; pre_number = rc.0 })
    else none

-- `tagRegexp.FindStringSubmatch`. Every group is followed by a byte that it cannot hold, so the
-- greedy match is the only one.
unfoldable pub tag_match : Text → Option TagMatch
unfolding match_prerelease
tag_match tag =
    let major = span_digits (drop 2 tag) in
    let minor = span_digits (drop 1 major.1) in
    let patch = span_digits (drop 1 minor.1) in
    let m : TagMatch = record {
      major = major.0;
      minor = minor.0;
      patch = [];
      pre_type = [];
      pre_number = [];
    } in
    if not (has_prefix tag (codes "go")) || is_empty major.0
    then none
    else if not (has_prefix major.1 (codes ".")) || is_empty minor.0
    then none
    else if has_prefix minor.1 (codes ".")
    then (if is_empty patch.0
        then none
        else match_prerelease patch.1 (record m { patch = patch.0 }))
    else match_prerelease minor.1 m

unfoldable pub version_of_match : TagMatch → Text
version_of_match m =
    codes "v"
    ++ (m.major
        ++ (codes "."
            ++ (m.minor
                ++ ((if is_empty m.patch then codes ".0" else codes "." ++ m.patch)
                    ++ (if is_empty m.pre_type
                        then []
                        else codes "-" ++ (m.pre_type ++ (codes "." ++ m.pre_number)))))))

-- "" stands for no version, as in the source.
unfoldable pub version_for_tag : Text → Text
unfolding text_eq supported_branch tag_match version_of_match
version_for_tag tag =
    if text_eq tag (codes "go1")
    then codes "v1.0.0"
    else if text_eq tag (codes "go1.0")
    then []
    else if text_eq tag latest || supported_branch tag
    then tag
    else elim (tag_match tag) [ none ↦ [] | some m ↦ version_of_match m ]

-- The loop of `finalDigitsIndex`, which walks from the end: the number of digits there.
unfoldable pub count_digits : Text → ℕ
unfolding is_digit
count_digits [] = 0
count_digits (c ∷ s) = if is_digit c then suc (count_digits s) else 0

-- `none` for -1.
unfoldable pub final_digits_index : Text → Option ℕ
unfolding count_digits
final_digits_index s =
    let n = count_digits (reverse s) in if n == 0 then none else some (length s - n)

-- "beta.1" becomes "beta1"; `none` is the error that no dot stands before the final digits.
unfoldable pub drop_dot : Text → Option Text
unfolding final_digits_index
drop_dot prerelease = elim (final_digits_index prerelease) [
  | none ↦ some prerelease
  | some zero ↦ some prerelease
  | some (suc j) ↦ elim (get_elem? prerelease j) [
    | none ↦ none
    | some c ↦ if c == b'.' then some (take j prerelease ++ drop (suc j) prerelease) else none
  ]
]

module _ (semver : Semver) where
  -- The version without its prerelease, and without a patch of 0 where tags elide it.
  unfoldable pub elide_patch : Text → Text → Text
  unfolding text_eq trim_suffix trim_prefix
  elide_patch v prerelease =
      let go_version = semver.canonical v in
      let base = trim_suffix go_version prerelease in
      let patch = trim_prefix base (semver.major_minor go_version ++ codes ".") in
      if text_eq patch (codes "0")
        && (is_lt (semver.cmp v (codes "v1.21.0")) || not (is_empty prerelease))
      then trim_suffix base (codes ".0")
      else base

  unfoldable pub tag_for_version : Text → Option Text
  unfolding supported_branch has_prefix text_eq drop_dot elide_patch
  tag_for_version v =
      let prerelease = semver.prerelease (semver.canonical v) in
      let go_version = codes "go" ++ trim_prefix (elide_patch v prerelease) (codes "v") in
      if supported_branch v
      then some v
      else if has_prefix v (codes "v0.0.0")
      then some master
      else if text_eq v (codes "v1.0.0")
      then some (codes "go1")
      else if not (semver.is_valid v)
      then none
      else if is_empty prerelease
      then some go_version
      else elim (drop_dot prerelease) [
        | none ↦ none
        | some p ↦ some (go_version ++ trim_prefix p (codes "-"))
      ]

  unfoldable pub major_version_for_version : Text → Option Text
  unfolding tag_for_version cut
  major_version_for_version version = elim (tag_for_version version) [
    | none ↦ none
    | some tag ↦
        if text_eq tag (codes "go1") || text_eq tag (codes "master")
        then some (codes "go1")
        else if (cut tag b'.').2
        then some (cut tag b'.').0
        else none
  ]

  unfoldable pub ref_name_for_version : Text → Option Text
  unfolding tag_for_version
  ref_name_for_version v =
      if supported_branch v
      then some (codes "refs/heads/" ++ v)
      else elim (tag_for_version v) [ none ↦ none | some tag ↦ some (codes "refs/tags/" ++ tag) ]

  unfoldable pub directory : Text → Text
  unfolding supported_branch has_prefix
  directory v =
      if not (is_lt (semver.cmp v (codes "v1.4.0-beta.1")))
        || (supported_branch v || has_prefix v (codes "v0.0.0"))
      then codes "src"
      else codes "src/pkg"

  -- The loop of `semanticVersion` for "latest": the last argument is `latestVersion`.
  unfoldable pub latest_release : List Text → Text → Option Text
  unfolding has_prefix parse_type
  latest_release [] best = some best
  latest_release (v ∷ vs) best =
      let skip = latest_release vs best in
      let next = latest_release vs (if is_gt (semver.cmp v best) then v else best) in
      if not (has_prefix v (codes "v"))
      then skip
      else elim (parse_type semver v) [ none ↦ none | some release ↦ next | some _ ↦ skip ]

-- The names of the repository's refs, as `Versions` filters them.
unfoldable pub versions_of_refs : List Text → List Text
unfolding version_for_tag has_prefix trim_prefix
versions_of_refs [] = []
versions_of_refs (r ∷ rs) =
    let rest = versions_of_refs rs in
    let v = version_for_tag (trim_prefix r (codes "refs/tags/")) in
    if not (has_prefix r (codes "refs/tags/")) then rest else if is_empty v then rest else v ∷ rest

unfoldable pub mem_text : Text → List Text → Bool
unfolding text_eq
mem_text t [] = false
mem_text t (x ∷ xs) = text_eq x t || mem_text t xs

-- `refs` is what `getGoRepo().refs` returns: the names, or an error.
module _ (semver : Semver) (refs : Option (List Text)) where
  unfoldable pub versions : Option (List Text)
  unfolding versions_of_refs
  versions = elim refs [ none ↦ none | some rs ↦ some (versions_of_refs rs) ]

  unfoldable pub semantic_version : Text → Option Text
  unfolding versions supported_branch latest_release mem_text
  semantic_version requested =
      if supported_branch requested then some requested else elim versions [
        | none ↦ none
        | some known ↦
            if text_eq requested latest
            then latest_release semver known []
            else if mem_text requested known
            then some requested
            else none
      ]

-- A hash of fewer than 12 bytes panics: `none`.
unfoldable pub version_matches_hash : Text → Text → Option Bool
unfolding is_pseudo text_eq
version_matches_hash v hash =
    if not (is_pseudo v)
    then some false
    else if ltb (length hash) 12
    then none
    else some (text_eq (drop (length v - 12) v) (take 12 hash))
