-- ===== src/Vuln/Client.antt =====
-- internal/vuln/client.go: the queries of a vulnerability database.
pub mod Lookup
pub mod Matches
pub mod Filter
pub mod Newest
use pkgsite.Prelude.{
  ℕ, zero, Bool, true, false, not, ◌&&◌, ◌||◌, List, [], ◌∷◌, ◌++◌, map, Text, Option, none, some,
  codes, text_eq, is_empty, has_prefix, trim_suffix, length, take, any, ltb, ◌==◌, if◌then◌else◌,
}
use pkgsite.Prelude.Int.{ℤ, pos, negsuc}
use pkgsite.Semver.{Semver}
use pkgsite.Osv.{
  Package, Affected, Entry, less_semver, affects_semver, go_std_module_path, go_cmd_module_path,
}
use pkgsite.Stdlib
use pkgsite.Vuln.Compact.{sort_ids, slices_compact}
use pkgsite.Vuln.Schema.{
  ModuleVuln, ModuleMeta, VulnMeta, unreachable, malformed, not_found, Result, ok, err, ◌>>=◌,
  Stream, end, broken, item, missing, garbled, found, Database, PackageRequest,
}

-- The test of the package in `isAffected`.
unfoldable pub package_matches : List Package → Text → Bool
unfolding text_eq any
package_matches packages path =
    if is_empty path
    then true
    else elim packages [ [] ↦ true | p ∷ ps ↦ any (λ (q : Package). text_eq path q.path) (p ∷ ps) ]

module _ (semver : Semver) where
  unfoldable pub affected_from : List Affected → PackageRequest → Bool
  unfolding text_eq affects_semver package_matches
  affected_from [] req = false
  affected_from (a ∷ as') req =
      let rest = affected_from as' req in
      if not (text_eq a.mod_info.path req.mod_path)
        || not (affects_semver semver a.ranges req.version)
      then rest
      else if not (package_matches a.packages req.package_path)
      then rest
      else true

  unfoldable pub is_affected : Entry → PackageRequest → Bool
  unfolding affected_from
  is_affected e req = affected_from e.affected req

-- The loop of `modulesFilter`: it stops at the n-th match, before it decodes further. The last
-- argument is `ms`; `none` is n = -1.
unfoldable pub filter_stream :
    {A : Type 0} → (A → Bool) → Option ℕ → Stream A → List A → Result (List A)
filter_stream filter n end ms = ok ms
filter_stream filter n broken ms = err malformed
filter_stream filter n (item m rest) ms =
    let ms' = ms ++ m ∷ [] in
    let skip = filter_stream filter n rest ms in
    let next = filter_stream filter n rest ms' in
    if filter m
    then elim n [ none ↦ next | some k ↦ if length ms' == k then ok ms' else next ]
    else skip

-- The loops over a whole index that read each item once.
unfoldable pub stream_items : {A : Type 0} → Stream A → Result (List A)
stream_items end = ok []
stream_items broken = err malformed
stream_items (item a rest) = do as' ← stream_items rest; ok (a ∷ as')

unfoldable pub find_alias : Text → Stream VulnMeta → Result Text
unfolding any text_eq
find_alias alias end = err not_found
find_alias alias broken = err malformed
find_alias alias (item v rest) =
    let next = find_alias alias rest in if any (text_eq alias) v.aliases then ok v.id else next

unfoldable pub filter_entries : (Entry → Bool) → List (Option Entry) → List Entry
filter_entries filter [] = []
filter_entries filter (none ∷ es) = filter_entries filter es
filter_entries filter (some e ∷ es) =
    if filter e then e ∷ filter_entries filter es else filter_entries filter es

-- `ids[:n]` for 0 ≤ n < len(ids).
unfoldable pub truncate : ℤ → List Text → List Text
truncate (pos n) l = if ltb n (length l) then take n l else l
truncate (negsuc n) l = l

unfoldable pub prefix_match : Text → Text → Bool
unfolding text_eq has_prefix
prefix_match prefix s = text_eq s prefix || has_prefix s (prefix ++ codes "/")

unfoldable pub module_match : Text → ModuleMeta → Bool
unfolding prefix_match Stdlib.contains text_eq has_prefix
module_match prefix m =
    if Stdlib.contains prefix
      && (text_eq m.path go_std_module_path || text_eq m.path go_cmd_module_path)
    then true
    else prefix_match prefix m.path || has_prefix prefix m.path

unfoldable pub entry_match : Text → Entry → Bool
unfolding prefix_match any
entry_match prefix e =
    any
      (λ (a : Affected).
        prefix_match prefix a.mod_info.path
        || any (λ (p : Package). prefix_match prefix p.path) a.packages)
      e.affected

unfoldable pub all_ids : List ModuleMeta → List Text
all_ids [] = []
all_ids (m ∷ ms) = map (λ (v : ModuleVuln). v.id) m.vulns ++ all_ids ms

module _ (semver : Semver) where
  -- The ids whose entries `ByPackage` has to download.
  unfoldable pub needed_ids : Text → List ModuleVuln → List Text
  unfolding less_semver
  needed_ids version [] = []
  needed_ids version (v ∷ vs) =
      if is_empty v.fixed || less_semver semver version v.fixed
      then v.id ∷ needed_ids version vs
      else needed_ids version vs

module _ (db : Database) where
  unfoldable pub modules_filter : (ModuleMeta → Bool) → Option ℕ → Result (List ModuleMeta)
  unfolding filter_stream
  modules_filter filter (some zero) = ok []
  modules_filter filter n = elim db.modules [
    | none ↦ err unreachable
    | some index ↦ filter_stream filter n index []
  ]

  -- `ByID`: a nil entry is `none`.
  unfoldable pub by_id : Text → Result (Option Entry)
  by_id id = elim (db.entry id) [
    | missing ↦ ok none
    | garbled ↦ err malformed
    | found e ↦ ok (some e)
  ]

  -- `byIDs` runs the calls concurrently, each with its own place in the result; an error of any
  -- makes an error of all.
  unfoldable pub by_ids : List Text → Result (List (Option Entry))
  unfolding by_id
  by_ids [] = ok []
  by_ids (x ∷ xs) = do e ← by_id x; es ← by_ids xs; ok (e ∷ es)

  -- A nil slice is [].
  unfoldable pub by_ids_filter : List Text → (Entry → Bool) → Result (List Entry)
  unfolding by_ids filter_entries
  by_ids_filter ids filter = do es ← by_ids ids; ok (filter_entries filter es)

  unfoldable pub ids : Result (List Text)
  unfolding stream_items
  ids = elim db.vulns [
    | none ↦ err unreachable
    | some index ↦ do vs ← stream_items index; ok (map (λ (v : VulnMeta). v.id) vs)
  ]

  unfoldable pub by_alias : Text → Result Text
  unfolding find_alias
  by_alias alias = elim db.vulns [ none ↦ err unreachable | some index ↦ find_alias alias index ]

  unfoldable pub entries : ℤ → Result (List (Option Entry))
  unfolding ids sort_ids truncate by_ids
  entries (pos zero) = ok []
  entries n = do l ← ids; by_ids (truncate n (sort_ids l))

  unfoldable pub by_package_prefix : Text → Result (List Entry)
  unfolding trim_suffix modules_filter module_match all_ids sort_ids slices_compact by_ids_filter
  by_package_prefix given =
      let prefix = trim_suffix given (codes "/") in
      modules_filter (module_match prefix) none >>= λ ms. elim ms [
        | [] ↦ ok []
        | m ∷ ms' ↦
            by_ids_filter (slices_compact (sort_ids (all_ids (m ∷ ms')))) (entry_match prefix)
      ]

  module _ (semver : Semver) where
    unfoldable pub by_package : PackageRequest → Result (List Entry)
    unfolding modules_filter needed_ids by_ids_filter is_affected text_eq
    by_package req = modules_filter (λ m. text_eq m.path req.mod_path) (some 1) >>= λ ms. elim ms [
      | [] ↦ ok []
      | m ∷ _ ↦ elim (needed_ids semver req.version m.vulns) [
        | [] ↦ ok []
        | i ∷ is' ↦ by_ids_filter (i ∷ is') (λ e. is_affected semver e req)
      ]
    ]
