-- ===== src/Vuln/Client/Lookup.antt =====
-- `ByPackage` of internal/vuln/client.go: the entries it returns.
use pkgsite.Prelude.{
  Bool, true, false, ◌||◌, List, [], ◌∷◌, map, In, Option, none, some, ◌≡◌, ◌↔◌, inl, inr, refl, ap,
  sym, ◌∙◌, arith, Bool-cases, Text, text_eq, is_empty, ◌⊎◌, Ordering,
}
use pkgsite.Semver.{Semver}
use pkgsite.Osv.{Entry, Affected, canonicalize_semver, less_semver}
use pkgsite.Vuln.Schema.{
  Result, ok, err, ◌>>=◌, Stream, ModuleVuln, ModuleMeta, Database, EntryFile, missing, garbled,
  found, unreachable, PackageRequest,
}
use pkgsite.Vuln.Client.{
  filter_entries, needed_ids, by_id, by_ids, by_ids_filter, is_affected, by_package, modules_filter,
}
use pkgsite.Vuln.Client.Matches.{IsAffectedBy, affected_from-In}
use pkgsite.Vuln.Client.Filter.{first_matches, modules_filter-first_matches}

abbrev pub file_entry : EntryFile → Option Entry
file_entry missing = none
file_entry garbled = none
file_entry (found e) = some e

pub ok_cases :
    {A B : Type 0} (r : Result A) (f : A → Result B) {b : B}
    → (r >>= f) ≡ ok b
    → (a : A) × (r ≡ ok a) × (f a ≡ ok b)
ok_cases (ok a) f h = (a, refl, h)
ok_cases (err x) f h = ground arith

by_id_lem :
    (db : Database) (x : Text) {o : Option Entry} → by_id db x ≡ ok o → o ≡ file_entry (db.entry x)
unfolding by_id
by_id_lem db x h = ground arith

pub by_ids_lem :
    (db : Database) (xs : List Text) {os : List (Option Entry)}
    → by_ids db xs ≡ ok os
    → os ≡ map (λ x. file_entry (db.entry x)) xs
unfolding by_ids
by_ids_lem db [] h = ground arith
by_ids_lem db (x ∷ xs) h =
    let (o, first, h') = ok_cases (by_id db x) _ h in
    let (os', others, h'') = ok_cases (by_ids db xs) _ h' in
    let rest = by_ids_lem db xs others in
    let head = by_id_lem db x first in ground (arith, rest, head, h'')

filter_entries-In :
    (f : Entry → Bool) (os : List (Option Entry)) (e : Entry)
    → In e (filter_entries f os) ↔ (In (some e) os × (f e ≡ true))
unfolding filter_entries
filter_entries-In f [] e = ground arith
filter_entries-In f (none ∷ os) e = ground (arith, filter_entries-In f os e)
filter_entries-In f (some d ∷ os) e = ground (arith, filter_entries-In f os e)

file_entry-some : (f : EntryFile) (e : Entry) → file_entry f ≡ some e → f ≡ found e
file_entry-some missing e h = ground arith
file_entry-some garbled e h = ground arith
file_entry-some (found d) e h = ground arith

module _ (semver : Semver) (version : Text) where
  -- A vulnerability of the index that is not known to be fixed before the version.
  abbrev pub Needed : ModuleVuln → Type 0
  Needed v = (is_empty v.fixed || less_semver semver version v.fixed) ≡ true

  needed_ids-In :
      (db : Database) (vs : List ModuleVuln) (e : Entry)
      → In (some e) (map (λ x. file_entry (db.entry x)) (needed_ids semver version vs))
        ↔ ((v : ModuleVuln) × In v vs × Needed v × (db.entry v.id ≡ found e))
  unfolding needed_ids
  needed_ids-In db [] e = ((λ h. absurd h), λ h. absurd h.1)
  needed_ids-In db (v ∷ vs) e =
      let ih = needed_ids-In db vs e in
      elim (Bool-cases (is_empty v.fixed || less_semver semver version v.fixed)) [
        | inl used ↦
            rw (used, needed_ids)
              (
                (λ h. elim h [
                  | inl here ↦ (v, inl refl, used, file_entry-some (db.entry v.id) e (sym here))
                  | inr there ↦ let (w, w_in, need, file) = ih.0 there in (w, inr w_in, need, file)
                ]),
                λ (w, w_in, need, file). elim w_in [
                  | inl here ↦ inl (
                      sym (ap file_entry file)
                      ∙ ap (λ (u : ModuleVuln). file_entry (db.entry u.id)) here)
                  | inr there ↦ inr (ih.1 (w, there, need, file))
                ],
              )
        | inr unused ↦
            rw (unused, needed_ids)
              (
                (λ h. let (w, w_in, need, file) = ih.0 h in (w, inr w_in, need, file)),
                λ (w, w_in, need, file). elim w_in [
                  | inl here ↦
                      let clash : true ≡ false =
                        sym need
                        ∙ ap
                            (λ (u : ModuleVuln).
                              is_empty u.fixed || less_semver semver version u.fixed)
                            here
                        ∙ unused in
                      ground arith
                  | inr there ↦ ih.1 (w, there, need, file)
                ],
              )
      ]

downloaded :
    (db : Database) (f : Entry → Bool) (xs : List Text) {es : List Entry}
    → (elim xs [ [] ↦ ok [] | i ∷ is' ↦ by_ids_filter db (i ∷ is') f ]) ≡ ok es
    → es ≡ filter_entries f (map (λ x. file_entry (db.entry x)) xs)
unfolding by_ids_filter filter_entries
downloaded db f [] h = ground arith
downloaded db f (x ∷ xs) h =
    let (os, all, h') = ok_cases (by_ids db (x ∷ xs)) _ h in
    let entries = by_ids_lem db (x ∷ xs) all in rw⁻¹ entries (ground (arith, h'))

by_package_entries :
    (semver : Semver) (db : Database) (req : PackageRequest) {index : Stream ModuleMeta}
    {m : ModuleMeta} {es : List Entry}
    → db.modules ≡ some index
    → first_matches (λ m'. text_eq m'.path req.mod_path) 1 index ≡ ok (m ∷ [])
    → by_package db semver req ≡ ok es
    → (e : Entry)
    → In e es ↔ (
        (v : ModuleVuln) × In v m.vulns
        × Needed semver req.version v
        × (db.entry v.id ≡ found e)
        × (is_affected semver e req ≡ true))
unfolding by_package
by_package_entries semver db req {index} {m} {es} opened first result e =
    let one : modules_filter db (λ m'. text_eq m'.path req.mod_path) (some 1) ≡ ok (m ∷ []) =
      modules_filter-first_matches db (λ m'. text_eq m'.path req.mod_path) 1
      ∙ ap
          (λ (o : Option (Stream ModuleMeta)). elim o [
            | none ↦ err unreachable
            | some index' ↦ first_matches (λ m'. text_eq m'.path req.mod_path) 1 index'
          ])
          opened
      ∙ first in
    let needed = needed_ids semver req.version m.vulns in
    let step : by_package db semver req ≡ (elim needed [
      | [] ↦ ok []
      | i ∷ is' ↦ by_ids_filter db (i ∷ is') (λ d. is_affected semver d req)
    ]) =
      rw (by_package, one) refl in
    let entries =
      downloaded db (λ d. is_affected semver d req) needed {es = es} (sym step ∙ result) in
    let member =
      filter_entries-In (λ d. is_affected semver d req)
        (map (λ x. file_entry (db.entry x)) (needed_ids semver req.version m.vulns)) e in
    let source = needed_ids-In semver req.version db m.vulns e in
    rw entries (
      (λ h.
          let (file, hit) = member.0 h in
          let (v, v_in, need, found_e) = source.0 file in (v, v_in, need, found_e, hit)),
      λ (v, v_in, need, found_e, hit). member.1 (source.1 (v, v_in, need, found_e), hit),
    )

module _ (semver : Semver) where
  -- A fix at a version above the given one, or none.
  abbrev pub IsUnfixed : Text → ModuleVuln → Type 0
  IsUnfixed version v =
      (v.fixed ≡ [])
      ⊎ (semver.cmp (canonicalize_semver version) (canonicalize_semver v.fixed) ≡ Ordering.lt)

  IsUnfixed-Needed :
      (version : Text) (v : ModuleVuln) → Needed semver version v ↔ IsUnfixed version v
  unfolding less_semver
  IsUnfixed-Needed version v = ground arith

-- Let m be the first module of the index with the request's path. If `ByPackage` gives entries, they
-- are exactly those of the files of m's vulnerabilities without a fixed version, or with one above the
-- request's, that have a module with the request's path, with ranges that affect the request's version,
-- and with no packages or with the request's package, if it asks about one. An empty version is a
-- version like any other here.
pub by_package-In :
    (semver : Semver) (db : Database) (req : PackageRequest) {index : Stream ModuleMeta}
    {m : ModuleMeta} {es : List Entry}
    → db.modules ≡ some index
    → first_matches (λ m'. text_eq m'.path req.mod_path) 1 index ≡ ok (m ∷ [])
    → by_package db semver req ≡ ok es
    → (e : Entry)
    → In e es ↔ (
        (v : ModuleVuln) × In v m.vulns
        × IsUnfixed semver req.version v
        × (db.entry v.id ≡ found e)
        × ((a : Affected) × In a e.affected × IsAffectedBy semver req a))
unfolding is_affected
by_package-In semver db req opened first result e =
    let entries = by_package_entries semver db req opened first result e in
    let affects = affected_from-In semver req e.affected in
    (
      (λ h.
          let (v, i, n, f, x) = entries.0 h in
          (v, i, (IsUnfixed-Needed semver req.version v).0 n, f, affects.0 x)),
      λ (v, i, n, f, x).
          entries.1 (v, i, (IsUnfixed-Needed semver req.version v).1 n, f, affects.1 x),
    )
