-- ===== src/Symbol.antt =====
-- internal/symbol.go and internal/symbol/intro.go: the versions in which
-- the symbols of a package appeared.

mod Build
pub mod Added
pub mod Notes
pub mod First
pub mod Earliest
unfoldable pub use Build.*
use pkgsite.Prelude.{
  Bool, false, ◌||◌, ◌&&◌, List, [], ◌∷◌, Text, Option, none, some, text_eq, if◌then◌else◌,
}
use pkgsite.Semver.{Semver, is_lt}
use pkgsite.Stdlib.{mem_text}

pub record SymbolMeta : Type 0 where
  pub name : Text
  pub synopsis : Text
  pub section : Text
  pub kind : Text
  pub parent_name : Text

-- The symbol is the key of a map.
unfoldable pub meta_eq : SymbolMeta → SymbolMeta → Bool
unfolding text_eq
meta_eq s t =
    text_eq s.name t.name
    && text_eq s.synopsis t.synopsis
    && text_eq s.section t.section
    && text_eq s.kind t.kind
    && text_eq s.parent_name t.parent_name

-- The builds of a symbol at a version: an entry of the nested maps, whose key for a name is the
-- name of the symbol.
pub record Row : Type 0 where
  pub version : Text
  pub symbol : SymbolMeta
  pub builds : List BuildContext

-- `SymbolHistory`.
abbrev pub History : Type 0
History = List Row

abbrev pub is_row : SymbolMeta → Text → Row → Bool
is_row sm v row = text_eq row.version v && meta_eq row.symbol sm

unfoldable pub add_symbol : History → SymbolMeta → Text → BuildContext → History
unfolding text_eq meta_eq add_build_context
add_symbol [] sm v build =
    record { version = v; symbol = sm; builds = add_build_context [] build } ∷ []
add_symbol (row ∷ h) sm v build =
    let rest = add_symbol h sm v build in
    if is_row sm v row
    then record row { builds = add_build_context row.builds build } ∷ h
    else row ∷ rest

-- `GetSymbol`: an error is `none`.
unfoldable pub get_symbol : History → Text → Text → BuildContext → Option SymbolMeta
unfolding text_eq supports_build
get_symbol [] name v build = none
get_symbol (row ∷ h) name v build =
    let rest = get_symbol h name v build in
    if text_eq row.version v && text_eq row.symbol.name name && supports_build row.builds build
    then some row.symbol
    else rest

-- The keys of the map of versions.
unfoldable pub keys : History → List Text
unfolding mem_text
keys [] = []
keys (row ∷ h) = let rest = keys h in if mem_text row.version rest then rest else row.version ∷ rest

module _ (semver : Semver) where
  unfoldable pub insert_version : Text → List Text → List Text
  insert_version v [] = v ∷ []
  insert_version v (w ∷ ws) =
      let rest = insert_version v ws in if is_lt (semver.cmp w v) then w ∷ rest else v ∷ w ∷ ws

  unfoldable pub sort_versions : List Text → List Text
  unfolding insert_version
  sort_versions [] = []
  sort_versions (v ∷ vs) = insert_version v (sort_versions vs)

  unfoldable pub versions : History → List Text
  unfolding keys sort_versions
  versions h = sort_versions (keys h)

-- An entry of `buildToNameToVersion`.
pub record Noted : Type 0 where
  pub build : BuildContext
  pub name : Text
  pub version : Text

unfoldable pub noted_version : List Noted → BuildContext → Text → Option Text
unfolding build_eq text_eq
noted_version [] build name = none
noted_version (e ∷ es) build name =
    if build_eq build e.build && text_eq e.name name
    then some e.version
    else noted_version es build name

-- The body of the innermost loop.
unfoldable pub note : List Noted → Text → Text → BuildContext → List Noted
unfolding noted_version
note es v name build = elim (noted_version es build name) [
  | some w ↦ es
  | none ↦ record { build = build; name = name; version = v } ∷ es
]

unfoldable pub note_builds : List Noted → Text → Text → List BuildContext → List Noted
unfolding note
note_builds es v name [] = es
note_builds es v name (b ∷ bs) = note_builds (note es v name b) v name bs

-- The symbols of one version.
unfoldable pub note_version : List Noted → Text → History → List Noted
unfolding text_eq note_builds build_contexts
note_version es v [] = es
note_version es v (row ∷ h) =
    note_version
      (if text_eq row.version v
        then note_builds es v row.symbol.name (build_contexts row.builds)
        else es)
      v h

unfoldable pub note_versions : List Noted → History → List Text → List Noted
unfolding note_version
note_versions es h [] = es
note_versions es h (v ∷ vs) = note_versions (note_version es v h) h vs

-- The second part: an error is `none`.
unfoldable pub add_noted : History → History → List Noted → Option History
unfolding get_symbol add_symbol
add_noted h out [] = some out
add_noted h out (e ∷ es) = elim (get_symbol h e.name e.version e.build) [
  | none ↦ none
  | some sm ↦ add_noted h (add_symbol out sm e.version e.build) es
]

unfoldable pub introduced_history : Semver → History → Option History
unfolding note_versions versions add_noted
introduced_history semver h = add_noted h [] (note_versions [] h (versions semver h))

-- Whether a name is there at a version, for a build.
unfoldable pub has : History → Text → Text → BuildContext → Bool
unfolding text_eq mem_build
has [] v name build = false
has (row ∷ h) v name build =
    (text_eq row.version v && text_eq row.symbol.name name && mem_build build row.builds)
    || has h v name build
