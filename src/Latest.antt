-- ===== src/Latest.antt =====
-- internal/latest.go and internal/fetch/latest.go: the latest versions of a module, with what its
-- go.mod file says of deprecation and retraction.
pub mod Cooked
use pkgsite.Prelude.{
  ℕ, zero, suc, ◌-◌, Bool, true, false, not, ◌||◌, ◌&&◌, List, [], ◌∷◌, ◌++◌, Text, Option, none,
  some, ◌⊎◌, inl, inr, codes, text_eq, is_empty, has_prefix, trim_prefix, length, drop, ◌==◌,
  if◌then◌else◌,
}
use pkgsite.Derrors.{Error, is_error, not_found, not_fetched}
use pkgsite.Semver.{Semver, is_lt, is_gt}
use pkgsite.Stdlib
use pkgsite.Version.{latest_of, latest_version, remove_if}

-- `modfile.Retract` and `modfile.File`, as far as they are read: the comments before and behind the
-- module declaration, if there is one.
pub record Retract : Type 0 where
  pub low : Text
  pub high : Text
  pub rationale : Text

pub record ModFile : Type 0 where
  pub module_comments : Option (List Text)
  pub retract : List Retract

pub record LatestModuleVersions : Type 0 where
  pub module_path : Text
  pub raw_version : Text
  pub cooked_version : Text
  pub good_version : Text
  pub go_mod_file : ModFile
  pub deprecated : Bool
  pub deprecation_comment : Text

-- The white space that `strings.TrimSpace` cuts off, in UTF-8.
abbrev spaces : List Text
spaces =
    (9 ∷ [])
    ∷ (10 ∷ [])
    ∷ (11 ∷ [])
    ∷ (12 ∷ [])
    ∷ (13 ∷ [])
    ∷ (32 ∷ [])
    ∷ (194 ∷ 133 ∷ [])
    ∷ (194 ∷ 160 ∷ [])
    ∷ (225 ∷ 154 ∷ 128 ∷ [])
    ∷ (226 ∷ 128 ∷ 128 ∷ [])
    ∷ (226 ∷ 128 ∷ 129 ∷ [])
    ∷ (226 ∷ 128 ∷ 130 ∷ [])
    ∷ (226 ∷ 128 ∷ 131 ∷ [])
    ∷ (226 ∷ 128 ∷ 132 ∷ [])
    ∷ (226 ∷ 128 ∷ 133 ∷ [])
    ∷ (226 ∷ 128 ∷ 134 ∷ [])
    ∷ (226 ∷ 128 ∷ 135 ∷ [])
    ∷ (226 ∷ 128 ∷ 136 ∷ [])
    ∷ (226 ∷ 128 ∷ 137 ∷ [])
    ∷ (226 ∷ 128 ∷ 138 ∷ [])
    ∷ (226 ∷ 128 ∷ 168 ∷ [])
    ∷ (226 ∷ 128 ∷ 169 ∷ [])
    ∷ (226 ∷ 128 ∷ 175 ∷ [])
    ∷ (226 ∷ 129 ∷ 159 ∷ [])
    ∷ (227 ∷ 128 ∷ 128 ∷ [])
    ∷ []

-- The length of the first of the texts that is in front.
unfoldable pub front : List Text → Text → ℕ
unfolding has_prefix
front [] s = 0
front (p ∷ ps) s = if has_prefix s p then length p else front ps s

-- Cuts texts off the front; the number is of bytes of such a text still to be cut off.
unfoldable pub cut_front : List Text → ℕ → Text → Text
unfolding front
cut_front ps n [] = []
cut_front ps (suc n) (c ∷ s) = cut_front ps n s
cut_front ps zero (c ∷ s) =
    let rest = cut_front ps (front ps (c ∷ s) - 1) s in
    if front ps (c ∷ s) == 0 then c ∷ s else rest

unfoldable pub reverse : Text → Text → Text
reverse [] t = t
reverse (c ∷ s) t = reverse s (c ∷ t)

unfoldable pub reverse_all : List Text → List Text
unfolding reverse
reverse_all [] = []
reverse_all (s ∷ ss) = reverse s [] ∷ reverse_all ss

unfoldable pub trim_space : Text → Text
unfolding cut_front reverse reverse_all
trim_space s =
    reverse (cut_front (reverse_all spaces) zero (reverse (cut_front spaces zero s) [])) []

abbrev pub deprecated_prefix : Text
deprecated_prefix = codes "Deprecated:"

-- The loop of `isDeprecated`.
unfoldable pub deprecation : List Text → Bool × Text
unfolding trim_space trim_prefix has_prefix
deprecation [] = (false, [])
deprecation (token ∷ tokens) =
    let text = trim_space (trim_prefix token (codes "//")) in
    let rest = deprecation tokens in
    if has_prefix text deprecated_prefix
    then (true, trim_space (drop (length deprecated_prefix) text))
    else rest

unfoldable pub is_deprecated : ModFile → Bool × Text
unfolding deprecation
is_deprecated mf = elim mf.module_comments [ none ↦ (false, []) | some tokens ↦ deprecation tokens ]

-- `NewLatestModuleVersions`; what `modfile.ParseLax` makes of the bytes is given, `none` an error.
unfoldable pub new_latest_module_versions :
    Text → Text → Text → Text → Option ModFile → Option LatestModuleVersions
unfolding is_deprecated
new_latest_module_versions module_path raw cooked good parsed = elim parsed [
  | none ↦ none
  | some mf ↦ some (record {
    module_path = module_path;
    raw_version = raw;
    cooked_version = cooked;
    good_version = good;
    go_mod_file = mf;
    deprecated = (is_deprecated mf).0;
    deprecation_comment = (is_deprecated mf).1;
  })
]

abbrev pub in_range : Semver → Text → Retract → Bool
in_range semver v r = not (is_lt (semver.cmp v r.low)) && not (is_gt (semver.cmp v r.high))

unfoldable pub is_retracted : Semver → List Retract → Text → Bool × Text
is_retracted semver [] v = (false, [])
is_retracted semver (r ∷ rs) v =
    let rest = is_retracted semver rs v in if in_range semver v r then (true, r.rationale) else rest

-- The proxy's answers, and `modfile.ParseLax`. `zip_has_go_mod` is `hasGoModFile` on the zip, `none`
-- where that cannot be had; `mod_file` the bytes of the go.mod file.
pub record Proxy : Type 0 where
  pub versions : Option (List Text)
  pub latest_info : Text ⊎ Error
  pub mod_file : Text → Option Text
  pub zip_has_go_mod : Text → Option Bool

-- A result, none at all (`nil, nil`), or an error.
pub data Found : Type 0 where
  found : LatestModuleVersions → Found
  nothing failed : Found

module _ (semver : Semver) (parse_lax : Text → Option ModFile) (module_path : Text)
    (proxy : Proxy) where
  -- `hasGoModFunc`: `has_go_mod` is the function passed in, if there is one. What it remembers is
  -- what it would give again.
  unfoldable pub has_go_mod_func : Option (Text → Bool ⊎ Error) → Text → Option Bool
  unfolding is_error
  has_go_mod_func none v = proxy.zip_has_go_mod v
  has_go_mod_func (some has_go_mod) v = elim (has_go_mod v) [
    | inl b ↦ some b
    | inr e ↦ if not (is_error e not_found) then none else proxy.zip_has_go_mod v
  ]

  -- The versions that the proxy knows; `none` is an error.
  unfoldable pub known_versions : Option (List Text)
  unfolding is_error
  known_versions = elim proxy.versions [
    | none ↦ none
    | some vs ↦ elim proxy.latest_info [
      | inl v ↦ some (vs ++ v ∷ [])
      | inr e ↦ if is_error e not_found || is_error e not_fetched then some vs else none
    ]
  ]

  -- The bytes of the go.mod file at a version, or a minimal one.
  abbrev pub mod_bytes : Text → Text
  mod_bytes v = elim (proxy.mod_file v) [
    | none ↦ codes "module " ++ module_path
    | some bytes ↦ bytes
  ]

  -- The cooked version, when the raw one and its go.mod file are known.
  unfoldable pub cook : Option (Text → Bool ⊎ Error) → List Text → LatestModuleVersions → Found
  unfolding is_retracted remove_if latest_version has_go_mod_func
  cook has_go_mod versions lmv =
      let unretracted =
        remove_if (λ v. (is_retracted semver lmv.go_mod_file.retract v).0) versions in
      if length versions == length unretracted
      then found (record lmv { cooked_version = lmv.raw_version })
      else elim (latest_version semver unretracted (has_go_mod_func has_go_mod)) [
        | none ↦ failed
        | some v ↦ found (record lmv { cooked_version = v })
      ]

  unfoldable pub raw_and_cooked : Option (Text → Bool ⊎ Error) → List Text → Found
  unfolding latest_version has_go_mod_func new_latest_module_versions cook
  raw_and_cooked has_go_mod versions =
      elim (latest_version semver versions (has_go_mod_func has_go_mod)) [
        | none ↦ failed
        | some raw ↦
            elim (new_latest_module_versions module_path raw [] [] (parse_lax (mod_bytes raw))) [
              | none ↦ failed
              | some lmv ↦ cook has_go_mod versions lmv
            ]
      ]

  -- The standard library's versions, `stdlib.Versions`.
  unfoldable pub latest_of_stdlib : Option (List Text) → Found
  unfolding latest_of new_latest_module_versions
  latest_of_stdlib std_versions = elim std_versions [
    | none ↦ failed
    | some vs ↦
        if is_empty (latest_of semver vs)
        then failed
        else elim (new_latest_module_versions module_path (latest_of semver vs)
            (latest_of semver vs) [] (parse_lax (codes "module std"))) [
              | none ↦ failed
              | some lmv ↦ found lmv
            ]
  ]

  unfoldable pub latest_module_versions : Option (List Text) → Option (Text → Bool ⊎ Error) → Found
  unfolding text_eq latest_of_stdlib known_versions raw_and_cooked
  latest_module_versions std_versions has_go_mod =
      if text_eq module_path Stdlib.module_path
      then latest_of_stdlib std_versions
      else elim known_versions [
        | none ↦ failed
        | some [] ↦ nothing
        | some (v ∷ vs) ↦ raw_and_cooked has_go_mod (v ∷ vs)
      ]
