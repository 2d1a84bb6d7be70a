-- ===== src/Source/Stored.antt =====
-- The encoding of an `Info` for the database, of internal/source/source.go, up to the text of its JSON.
use pkgsite.Prelude.{
  Bool, true, false, not, ◌&&◌, List, [], ◌∷◌, Text, Option, none, some, text_eq, text_eq_iff,
  is_empty, if◌then◌else◌, ◌≡◌, refl, sym, arith,
}
use pkgsite.Source.{UrlTemplates, Info, trim_vcs_suffix}
use pkgsite.Source.Sites.{
  no_templates, github_url_templates, gitlab_url_templates, bitbucket_url_templates,
  url_templates_by_kind,
}

pub record JsonInfo : Type 0 where
  pub repo_url : Text
  pub module_dir : Text
  pub commit : Text
  pub kind : Text
  pub templates : Option UrlTemplates

unfoldable pub templates_eq : UrlTemplates → UrlTemplates → Bool
unfolding text_eq
templates_eq s t =
    text_eq s.repo t.repo
    && (text_eq s.directory t.directory
        && (text_eq s.file t.file && (text_eq s.line t.line && text_eq s.raw t.raw)))

-- The kind of some templates, empty when they are none of the common ones.
unfoldable pub kind_of : List (Text × UrlTemplates) → UrlTemplates → Text
unfolding templates_eq
kind_of [] t = []
kind_of ((kind, s) ∷ kinds) t =
    let rest = kind_of kinds t in if templates_eq t s then kind else rest

-- The entry of the map, which has the zero value for an unknown kind.
unfoldable pub templates_of : List (Text × UrlTemplates) → Text → UrlTemplates
unfolding text_eq
templates_of [] kind = no_templates
templates_of ((k, s) ∷ kinds) kind =
    let rest = templates_of kinds kind in if text_eq k kind then s else rest

unfoldable pub marshal_json : Info → JsonInfo
unfolding kind_of templates_eq
marshal_json i =
    let kind = kind_of url_templates_by_kind i.templates in
    record {
      repo_url = i.repo_url;
      module_dir = i.module_dir;
      commit = i.commit;
      kind = kind;
      templates =
          if is_empty kind && not (templates_eq i.templates no_templates)
          then some i.templates
          else none;
    }

-- It sets the fields of an `Info`, whose templates stay when none are stored.
unfoldable pub unmarshal_json : Info → JsonInfo → Info
unfolding templates_of trim_vcs_suffix
unmarshal_json i ji = record {
  repo_url = trim_vcs_suffix ji.repo_url;
  module_dir = ji.module_dir;
  commit = ji.commit;
  templates =
      if not (is_empty ji.kind)
      then templates_of url_templates_by_kind ji.kind
      else elim ji.templates [ none ↦ i.templates | some t ↦ t ];
}

templates_eq_sound : (s t : UrlTemplates) → templates_eq s t ≡ true → s ≡ t
unfolding templates_eq
templates_eq_sound s t h = grind (arith, text_eq_iff)

-- What `unmarshal_json` makes of the kind and the templates that `marshal_json` stores.
abbrev restored : UrlTemplates → UrlTemplates
restored t =
    let kind = kind_of url_templates_by_kind t in
    if not (is_empty kind)
    then templates_of url_templates_by_kind kind
    else elim (if is_empty kind && not (templates_eq t no_templates) then some t else none) [
      | none ↦ no_templates
      | some s ↦ s
    ]

restored_lem : (t : UrlTemplates) → restored t ≡ t
unfolding kind_of templates_of text_eq
restored_lem t =
    go (templates_eq t github_url_templates) (templates_eq t gitlab_url_templates)
      (templates_eq t bitbucket_url_templates) (templates_eq t no_templates) refl refl refl refl
  where
    go :
        (a b c d : Bool)
        → templates_eq t github_url_templates ≡ a
        → templates_eq t gitlab_url_templates ≡ b
        → templates_eq t bitbucket_url_templates ≡ c
        → templates_eq t no_templates ≡ d
        → restored t ≡ t
    go true b c d e f g h = rw (e) (sym (templates_eq_sound t github_url_templates e))
    go false true c d e f g h = rw (e, f) (sym (templates_eq_sound t gitlab_url_templates f))
    go false false true d e f g h =
        rw (e, f, g) (sym (templates_eq_sound t bitbucket_url_templates g))
    go false false false true e f g h = rw (e, f, g, h) (sym (templates_eq_sound t no_templates h))
    go false false false false e f g h = rw (e, f, g, h) refl

-- An `Info` that is stored and read back into one without templates is the same, but for the suffix of a
-- repository's URL that is removed.
pub unmarshal_json-marshal_json :
    (i j : Info)
    → unmarshal_json (record j { templates = no_templates }) (marshal_json i)
      ≡ record i { repo_url = trim_vcs_suffix i.repo_url }
unfolding unmarshal_json marshal_json
unmarshal_json-marshal_json i j = rw (restored_lem i.templates) refl
