-- ===== src/Source/Sites.antt =====
-- The templates of internal/source/source.go for known sites, and what it makes of the Go project's
-- own repositories.
use pkgsite.Prelude.{List, [], ◌∷◌, Text, Option, none, some, codes}
use pkgsite.Source.{UrlTemplates, Info, go_source_repo_url, trim_vcs_suffix}

abbrev pub no_templates : UrlTemplates
no_templates = record { repo = []; directory = []; file = []; line = []; raw = [] }

abbrev pub github_url_templates : UrlTemplates
github_url_templates = record {
  repo = [];
  directory = codes "{repo}/tree/{commit}/{dir}";
  file = codes "{repo}/blob/{commit}/{file}";
  line = codes "{repo}/blob/{commit}/{file}#L{line}";
  raw = codes "{repo}/raw/{commit}/{file}";
}

abbrev pub bitbucket_url_templates : UrlTemplates
bitbucket_url_templates = record {
  repo = [];
  directory = codes "{repo}/src/{commit}/{dir}";
  file = codes "{repo}/src/{commit}/{file}";
  line = codes "{repo}/src/{commit}/{file}#lines-{line}";
  raw = codes "{repo}/raw/{commit}/{file}";
}

abbrev pub gitlab_url_templates : UrlTemplates
gitlab_url_templates = record {
  repo = [];
  directory = codes "{repo}/-/tree/{commit}/{dir}";
  file = codes "{repo}/-/blob/{commit}/{file}";
  line = codes "{repo}/-/blob/{commit}/{file}#L{line}";
  raw = codes "{repo}/-/raw/{commit}/{file}";
}

abbrev pub csopensource_templates : UrlTemplates
csopensource_templates = record {
  repo = [];
  directory = codes "{repo}/+/{commit}:{dir}";
  file = codes "{repo}/+/{commit}:{file}";
  line = codes "{repo}/+/{commit}:{file};l={line}";
  raw = [];
}

abbrev pub url_templates_by_kind : List (Text × UrlTemplates)
url_templates_by_kind =
    (codes "github", github_url_templates)
    ∷ (codes "gitlab", gitlab_url_templates)
    ∷ (codes "bitbucket", bitbucket_url_templates)
    ∷ []

abbrev pub new_github_info : Text → Text → Text → Info
new_github_info repo_url module_dir commit = record {
  repo_url = trim_vcs_suffix repo_url;
  module_dir = module_dir;
  commit = commit;
  templates = github_url_templates;
}

-- `stdlib.TagForVersion` and `stdlib.Directory`, at the version, are given.
abbrev pub new_stdlib_info : Option Text → Text → Option Info
new_stdlib_info none directory = none
new_stdlib_info (some commit) directory = some (record {
  repo_url = go_source_repo_url;
  module_dir = directory;
  commit = commit;
  templates = record csopensource_templates {
    raw = codes "https://github.com/golang/go/raw/{commit}/{file}";
  };
})
