-- ===== src/Vuln/Schema.antt =====
-- internal/vuln/schema.go and the types of client.go. What the source returns and encoding/json
-- decodes is a parameter: an index is a stream of items that may break off.
use pkgsite.Prelude.{List, Text, Option}
use pkgsite.Osv.{Entry}

pub record ModuleVuln : Type 0 where
  pub id : Text
  pub fixed : Text

pub record ModuleMeta : Type 0 where
  pub path : Text
  pub vulns : List ModuleVuln

pub record VulnMeta : Type 0 where
  pub id : Text
  pub aliases : List Text

-- The errors of the source, of the decoder, and `derrors.NotFound`.
pub data VulnError : Type 0 where
  unreachable malformed not_found : VulnError

pub data Result (A : Type 0) : Type 0 where
  ok : A → Result A
  err : VulnError → Result A

infixl 5 ◌>>=◌
abbrev pub ◌>>=◌ : {A B : Type 0} → Result A → (A → Result B) → Result B
ok a >>= f = f a
err e >>= f = err e

-- What the JSON decoder finds in an index: items, then the end or a broken item.
pub data Stream (A : Type 0) : Type 0 where
  end : Stream A
  broken : Stream A
  item : A → Stream A → Stream A

-- The entry file of an id: `source.get` fails, `json.Unmarshal` fails, or there is an entry.
pub data EntryFile : Type 0 where
  missing : EntryFile
  garbled : EntryFile
  found : Entry → EntryFile

-- The database behind the source. `none` is an index that cannot be read or opened.
pub record Database : Type 0 where
  pub modules : Option (Stream ModuleMeta)
  pub vulns : Option (Stream VulnMeta)
  pub entry : Text → EntryFile

pub record PackageRequest : Type 0 where
  pub mod_path : Text
  pub package_path : Text
  pub version : Text
