-- ===== src/Tests/Source.antt =====
-- Examples of internal/source/source.go.
use pkgsite.Prelude.{List, [], ◌∷◌, Text, codes, ◌≡◌, refl, some, count_byte}
use pkgsite.Source.{Info, expand, trim_vcs_suffix, file_url}
use pkgsite.Source.Expand.{Piece, plain, variable, print, substitute, expand-substitute}
use pkgsite.Source.Meta.{SourceMeta, Token, start_element, other_token, relative_dir, parse_meta}
use pkgsite.Source.Meta.Rooted.{Joins, parse_meta-Joins}
use pkgsite.Source.Sites.{no_templates, github_url_templates}
use pkgsite.Source.Stored.{marshal_json, unmarshal_json, unmarshal_json-marshal_json}

abbrev values : List (Text × Text)
values = (codes "repo", codes "{commit}") ∷ (codes "commit", codes "v1.0.0") ∷ []

abbrev pieces : List Piece
pieces =
    variable (codes "repo")
    ∷ plain (codes "/tree/")
    ∷ variable (codes "commit")
    ∷ plain (codes "/")
    ∷ variable (codes "dir")
    ∷ []

expand-substitute_example : expand (print pieces) values ≡ substitute values pieces
unfolding count_byte
expand-substitute_example =
    expand-substitute values (refl, (refl, tt)) pieces
      (refl, (refl, (refl, (refl, (refl, (refl, (refl, (refl, tt))))))))

abbrev an_info : Info
an_info = record {
  repo_url = codes "https://github.com/a/b.git";
  module_dir = codes "sub";
  commit = codes "sub/v1.0.0";
  templates = github_url_templates;
}

a_file :
    file_url (some an_info) (codes "c/d.go")
    ≡ codes "https://github.com/a/b.git/blob/sub/v1.0.0/sub/c/d.go"
unfolding file_url
a_file = refl

unmarshal_json-marshal_json_example :
    unmarshal_json (record an_info { templates = no_templates }) (marshal_json an_info)
    ≡ record an_info { repo_url = trim_vcs_suffix (codes "https://github.com/a/b.git") }
unmarshal_json-marshal_json_example = unmarshal_json-marshal_json an_info an_info

abbrev a_page : List Token
a_page =
    other_token
    ∷ start_element (codes "META") (
        (codes "name", codes "go-import")
        ∷ (codes "content", codes "a.org/m  git https://b.org/r")
        ∷ [])
    ∷ []

abbrev a_meta : SourceMeta
a_meta = record {
  repo_root_prefix = codes "a.org/m";
  repo_url = codes "https://b.org/r";
  dir_template = [];
  file_template = [];
}

parse_meta-Joins_example :
    Joins
      (codes "a.org/m/sub/v2")
      (codes "a.org/m")
      (relative_dir (codes "a.org/m/sub/v2") (codes "a.org/m"))
unfolding parse_meta
parse_meta-Joins_example = parse_meta-Joins (codes "a.org/m/sub/v2") a_page a_meta refl
