-- ===== src/Tests/Latest.antt =====
-- Examples of the latest versions of a module.
use pkgsite.Prelude.{true, [], ◌∷◌, Text, Option, none, some, inr, codes}
use pkgsite.Derrors.{root, not_found}
use pkgsite.Latest.{ModFile, LatestModuleVersions, Proxy}

abbrev go_mod : ModFile
go_mod = record {
  module_comments = some (codes "// Deprecated:  use example.com/n " ∷ []);
  retract = record { low = codes "v1.3.0"; high = codes "v1.4.9"; rationale = codes "broken" } ∷ [];
}

abbrev parse : Text → Option ModFile
parse bytes = some go_mod

abbrev path : Text
path = codes "example.com/m"

abbrev proxy : Proxy
proxy = record {
  versions = some (codes "v1.2.0" ∷ codes "v1.3.0" ∷ []);
  latest_info = inr (root not_found);
  mod_file = λ v. none;
  zip_has_go_mod = λ v. some true;
}

abbrev latest : LatestModuleVersions
latest = record {
  module_path = path;
  raw_version = codes "v1.3.0";
  cooked_version = codes "v1.2.0";
  good_version = [];
  go_mod_file = go_mod;
  deprecated = true;
  deprecation_comment = codes "use example.com/n";
}
