-- ===== src/Source/Dynamic.antt =====
-- `moduleInfoDynamic` of internal/source/source.go, on what the tags of a page say. The regular
-- expressions that recognize sites and old templates are parameters.
use pkgsite.Prelude.Int.{ℤ}
use pkgsite.Prelude.{
  ℕ, zero, suc, Bool, true, false, not, List, [], ◌∷◌, ◌++◌, Text, Option, none, some, codes,
  is_empty, has_prefix, trim_suffix, length, if◌then◌else◌, ◌==◌,
}
use pkgsite.Worker.Fetch.Env.{Answer, ok, err}
use pkgsite.Derrors.{wrap}
use pkgsite.Source.{UrlTemplates, Info, https, remove_http_scheme, commit_from_version}
use pkgsite.Source.Sites.{no_templates}
use pkgsite.Source.Stored.{templates_eq}
use pkgsite.Source.Found.{
  TransformCommit, Pattern, Match, match_static, transformed, Located, module_info,
}
use pkgsite.Source.Meta.{SourceMeta, Token, fetch_meta, relative_dir}

-- The first pair whose old text is in front, with what follows its first byte.
unfoldable pub old_at : List (Text × Text) → Text → Option (Text × Text)
unfolding has_prefix
old_at [] s = none
old_at ((old, new) ∷ m) s =
    let rest = old_at m s in if has_prefix s old then some (old, new) else rest

-- A replacer's pass over a text, of whose front the given number of bytes has been replaced; no old
-- text is empty.
unfoldable pub replace_from : List (Text × Text) → Text → ℕ → Text
unfolding old_at
replace_from m [] n = []
replace_from m (c ∷ s) (suc n) = replace_from m s n
replace_from m (c ∷ s) zero = elim (old_at m (c ∷ s)) [
  | some p ↦
      p.1 ++ elim p.0 [ [] ↦ replace_from m s zero | b ∷ (old → o) ↦ replace_from m s (length old) ]
  | none ↦ c ∷ replace_from m s zero
]

abbrev pub rep : Text → Text
rep s =
    replace_from
      ((codes "{/dir}/{file}", codes "/{file}")
        ∷ (codes "{dir}/{file}", codes "{file}")
        ∷ (codes "{/dir}", codes "/{dir}")
        ∷ [])
      s 0

abbrev pub has_byte : ℕ → Text → Bool
has_byte b [] = false
has_byte b (c ∷ s) = if c == b then true else has_byte b s

-- A text up to the last byte of a kind.
unfoldable pub before_last : ℕ → Text → Text
before_last b [] = []
before_last b (c ∷ s) =
    let rest = before_last b s in if has_byte b s then c ∷ rest else if c == b then [] else c ∷ s

abbrev pub is_later : ℕ → Text → Bool
is_later b [] = false
is_later b (c ∷ s) = has_byte b s

-- `LastIndexByte` is above 0 when the byte is found behind the first one.
unfoldable pub without_fragment : Text → Text
unfolding before_last
without_fragment line = if is_later b'#' line then before_last b'#' line else line

-- A template of old that is recognized.
pub record Legacy : Type 0 where
  pub matches : Text → Bool
  pub templates : UrlTemplates
  pub transform_commit : TransformCommit

module _ (legacy : List Legacy) where
  unfoldable pub legacy_match : List Legacy → SourceMeta → UrlTemplates × TransformCommit
  unfolding replace_from without_fragment
  legacy_match [] sm = (
    record {
      repo = sm.repo_url;
      directory = rep sm.dir_template;
      file = without_fragment (rep sm.file_template);
      line = rep sm.file_template;
      raw = [];
    },
    none,
  )
  legacy_match (l ∷ ls) sm =
      let rest = legacy_match ls sm in
      if l.matches sm.file_template then (l.templates, l.transform_commit) else rest

  unfoldable pub match_legacy_templates : SourceMeta → UrlTemplates × TransformCommit
  unfolding legacy_match
  match_legacy_templates sm =
      if is_empty sm.file_template then (no_templates, none) else legacy_match legacy sm

  module _ (atoi : Text → Option ℤ) (patterns : List Pattern) where
    -- The templates with what changes a commit, of a match or of none.
    abbrev pub site : Option Match → UrlTemplates × TransformCommit
    site none = (no_templates, none)
    site (some m) = (m.templates, m.transform_commit)

    abbrev pub repo_of : Option Match → Text
    repo_of none = []
    repo_of (some m) = m.repo

    -- The URL of the repository, and its site: from the URL, from the template of a directory, or from
    -- old templates.
    unfoldable pub locate : SourceMeta → Text × (UrlTemplates × TransformCommit)
    unfolding templates_eq match_static remove_http_scheme match_legacy_templates trim_suffix
    locate sm =
        let by_url = match_static patterns (remove_http_scheme sm.repo_url) in
        let by_dir = match_static patterns (remove_http_scheme sm.dir_template) in
        if not (templates_eq (site by_url).0 no_templates)
        then (sm.repo_url, site by_url)
        else if not (templates_eq (site by_dir).0 no_templates)
        then (https ++ repo_of by_dir, site by_dir)
        else (trim_suffix sm.repo_url (codes ".git"), match_legacy_templates sm)

    unfoldable pub info_of_meta : SourceMeta → Text → Text → Info
    unfolding locate relative_dir commit_from_version trim_suffix
    info_of_meta sm module_path version =
        let place = locate sm in
        let dir = relative_dir module_path sm.repo_root_prefix in
        record {
          repo_url = trim_suffix place.0 (codes "/");
          module_dir = dir;
          commit = transformed place.1.1 (commit_from_version atoi version dir);
          templates = place.1.0;
        }

    -- A client without an HTTP client, which tests have, is `none`.
    unfoldable pub module_info_dynamic :
        Option (Text → Bool → Answer (List Token)) → Text → Text → Answer (Option Info)
    unfolding fetch_meta info_of_meta
    module_info_dynamic none module_path version = ok none
    module_info_dynamic (some get) module_path version = elim (fetch_meta get module_path) [
      | err e ↦ err (wrap e)
      | ok sm ↦ ok (some (info_of_meta sm module_path version))
    ]

    -- `ModuleInfo` with it.
    unfoldable pub module_info_of :
        (Text → Bool) → Option (Text → Bool → Answer (List Token)) → Text → Text → Located
    unfolding module_info module_info_dynamic
    module_info_of has_url client module_path v =
        module_info atoi patterns has_url (module_info_dynamic client module_path v) module_path v
