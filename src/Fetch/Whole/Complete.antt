-- ===== src/Fetch/Whole/Complete.antt =====
-- Every Go file of a module that is fetched with no error has its package's unit in the result, or a
-- state that tells of a failure.
use mathlib.Core.Path.{subst}
use pkgsite.Prelude.{
  ◌≡◌, ◌<◌, refl, sym, ◌⊎◌, inl, inr, List, [], ◌∷◌, Text, none, some, arith, In, length, text_eq,
  text_eq_iff, Bool-cases, Option, ◌∙◌, true, ◌≢◌, if◌then◌else◌,
}
use pkgsite.Fetch.Accounts.{
  UnitAt, Accounted, collect_units-Accounted, collect_units-keeps, collect_units-states,
}
use pkgsite.Fetch.Files.{WalkEntry, ContentDir, join_path}
use pkgsite.Fetch.Load.{named, PackageMeta, import_path_of, load_package_meta}
use pkgsite.Fetch.Load.Names.{load_package_meta-nonempty}
use pkgsite.Fetch.Module.{
  ModuleGetter, Tools, LazyModule, Fetched, extract_unit_metas, fetch_lazy_module,
}
use pkgsite.Fetch.Package.{PackageVersionState, extract_or_fail}
use pkgsite.Fetch.Package.Covers.{PackageAt, RunsAll, extract_or_fail-Found}
use pkgsite.Fetch.Package.Rootless.{RunsOnly, FromDirs, extract_or_fail-FromDirs}
use pkgsite.Fetch.Package.States.{FailedAt}
use pkgsite.Fetch.Package.Walked.{Considered}
use pkgsite.Fetch.Result.Gives.{IsLoaded}
use pkgsite.Fetch.Result.{Collected, collect_units, finish_result, fetch_result}
use pkgsite.Fetch.Unit.{
  UnitMeta, is_package, metas_at, module_unit_metas, name_or_empty, package_lookup,
}
use pkgsite.Fetch.Unit.Closed.{Has}
use pkgsite.Fetch.Unit.Least.{Below, unit_paths-IsUnitPaths}
use pkgsite.Fetch.Whole.{IsFs, loads_at, FromDirs-Ends}
use pkgsite.Fetch.Whole.Kept.{fetch_lazy_module-Made}
use pkgsite.Paths.Candidates.Dir.{dir}
use pkgsite.Stdlib.{mem_text}
use pkgsite.Worker.Fetch.Env.{ok, answer_cases}

-- What the lookup finds is a package of the list.
lookup_In :
    (pkgs : List PackageMeta) (p : Text) (m : PackageMeta)
    → package_lookup pkgs p ≡ some m
    → In m pkgs
unfolding package_lookup
lookup_In [] p m h = cc
lookup_In (n ∷ pkgs) p m h = go (package_lookup pkgs p) (lookup_In pkgs p) refl h
  where
    go :
        (o : Option PackageMeta)
        → ((m : PackageMeta) → package_lookup pkgs p ≡ some m → In m pkgs)
        → package_lookup pkgs p ≡ o
        → (elim o [ some q ↦ some q | none ↦ if text_eq n.path p then some n else none ]) ≡ some m
        → In m (n ∷ pkgs)
    go (some q) next e f = inr (next m (e ∙ f))
    go none next e f = inl (elim (Bool-cases (text_eq n.path p)) [
      | inl y ↦ (let same : some n ≡ some m = rw y at f in cc)
      | inr z ↦ (let clash : none ≡ some m = rw z at f in cc)
    ])

-- A package at a path is found by the lookup.
lookup_some :
    (pkgs : List PackageMeta) (p : Text)
    → PackageAt pkgs p
    → (m : PackageMeta) × (package_lookup pkgs p ≡ some m)
unfolding package_lookup
lookup_some [] p h = absurd h
lookup_some (m ∷ pkgs) p h = go (package_lookup pkgs p) (lookup_some pkgs p) refl
  where
    go :
        (o : Option PackageMeta)
        → (PackageAt pkgs p → (n : PackageMeta) × (package_lookup pkgs p ≡ some n))
        → package_lookup pkgs p ≡ o
        → (n : PackageMeta) × ((elim o [
          | some q ↦ some q
          | none ↦ if text_eq m.path p then some m else none
        ])
            ≡ some n)
    go (some q) next e = (q, refl)
    go none next e = elim h [
      | inl here ↦ (m, rw ((text_eq_iff m.path p).1 here) refl)
      | inr there ↦ let (n, f) = next there in absurd (let clash : none ≡ some n = sym e ∙ f in cc)
    ]

-- A unit with a name is a package's.
name_lem :
    (m : PackageMeta) (q : Text)
    → m.name ≢ []
    → is_package (record { path = q; name = m.name }) ≡ true
unfolding is_package
name_lem m q h = ground (arith, h, text_eq_iff m.name [])

-- The path of a set that a package has, where no package has an empty name, has its unit among the
-- metas, with a name.
metas_at-In :
    (pkgs : List PackageMeta) (paths : List Text) (p : Text)
    → ((m : PackageMeta) → In m pkgs → m.name ≢ [])
    → PackageAt pkgs p
    → Has paths p
    → (um : UnitMeta) × In um (metas_at pkgs paths) × (um.path ≡ p) × (is_package um ≡ true)
unfolding mem_text
metas_at-In pkgs [] p names at h = cc
metas_at-In pkgs (q ∷ paths) p names at h = elim (Bool-cases (text_eq q p)) [
  | inl y ↦ (
    record { path = q; name = name_or_empty (package_lookup pkgs q) },
    inl refl,
    (text_eq_iff q p).0 y,
    named q (subst (PackageAt pkgs) (sym ((text_eq_iff q p).0 y)) at),
  )
  | inr n ↦
      let (um, m, e, b) = metas_at-In pkgs paths p names at (ground arith) in (um, inr m, e, b)
]
  where
    named :
        (q : Text)
        → PackageAt pkgs q
        → is_package (record { path = q; name = name_or_empty (package_lookup pkgs q) }) ≡ true
    named q at' =
        let (m, e) = lookup_some pkgs q at' in rw e (name_lem m q (names m (lookup_In pkgs q m e)))

module _ (tools : Tools) (module_path : Text) where
  -- A path of a package is the module's, or a longer one.
  abbrev pub Within : Text → Type 0
  Within p = (p ≡ module_path) ⊎ Below module_path p

  PackageAt-Has :
      (pkgs : List PackageMeta) (paths : List Text) (p : Text)
      → ((m : PackageMeta) → In m pkgs → Below module_path m.path → Has paths m.path)
      → PackageAt pkgs p
      → Below module_path p
      → Has paths p
  PackageAt-Has [] paths p f h g = absurd h
  PackageAt-Has (m ∷ pkgs) paths p f (inl e) g =
      subst (Has paths) e (f m (inl refl) (subst (Below module_path) (sym e) g))
  PackageAt-Has (m ∷ pkgs) paths p f (inr h) g = PackageAt-Has pkgs paths p (λ n i. f n (inr i)) h g

  FromDirs-names :
      ((n b : Text) → tools.parse n b ≢ named [])
      → (version : Text) (cd : ContentDir) (pkgs : List PackageMeta)
      → FromDirs tools.check_import_path module_path version
          (load_package_meta tools.parse tools.match_file cd.read_file module_path)
          (loads_at tools module_path version cd)
          pkgs
      → (m : PackageMeta) → In m pkgs
      → m.name ≢ []
  FromDirs-names names version cd [] h m i = absurd i
  FromDirs-names names version cd (p ∷ pkgs) ((d, r, e, (ps, l)), h) m (inl q) =
      subst (λ (x : PackageMeta). x.name ≢ []) (sym q)
        (load_package_meta-nonempty tools.parse names tools.match_file cd.read_file module_path ps d
          p l)
  FromDirs-names names version cd (p ∷ pkgs) (f, h) m (inr i) =
      FromDirs-names names version cd pkgs h m i

  -- What the units' metas and the states of the first look have of a Go file.
  extract_unit_metas-Found :
      (version : Text) (cd : ContentDir) (metas : List UnitMeta) (states : List PackageVersionState)
      → 0 < length module_path
      → ((n b : Text) → tools.parse n b ≢ named [])
      → RunsAll tools.reorder
      → RunsOnly tools.reorder
      → IsFs cd
      → extract_unit_metas tools module_path version cd ≡ some (ok (metas, states))
      → (e : WalkEntry) → In e cd.walk
      → Considered tools.check_import_path module_path version e
      → Within (import_path_of module_path (dir e.path))
      → ((um : UnitMeta) × In um metas
          × (um.path ≡ import_path_of module_path (dir e.path))
          × (is_package um ≡ true))
        ⊎ FailedAt states (join_path module_path (dir e.path))
  unfolding extract_unit_metas module_unit_metas
  extract_unit_metas-Found version cd metas states n names all only fs h e i c w =
      elim (answer_cases (
        extract_or_fail tools.check_import_path module_path version
          (load_package_meta tools.parse tools.match_file cd.read_file module_path) tools.reorder
          cd)) [
            | inl (f, q) ↦ absurd (ground (arith, q, h))
            | inr ((pkgs, later), q) ↦
                let from =
                  extract_or_fail-FromDirs tools.check_import_path module_path version
                    (load_package_meta tools.parse tools.match_file cd.read_file module_path)
                    (loads_at tools module_path version cd) tools.reorder cd only fs q in
                let (paths, u, v) =
                  unit_paths-IsUnitPaths module_path pkgs
                    (FromDirs-Ends tools module_path version cd pkgs n from) in
                let same : metas_at pkgs paths ≡ metas = ground (arith, q, u, h) in
                let states_same : later ≡ states = ground (arith, q, u, h) in
                elim (extract_or_fail-Found tools.check_import_path module_path version
                  (load_package_meta tools.parse tools.match_file cd.read_file module_path)
                  (loads_at tools module_path version cd) tools.reorder cd all q e i c) [
                    | inl p ↦ inl (
                        subst
                          (λ ms.
                            (um : UnitMeta) × In um ms
                            × (um.path ≡ import_path_of module_path (dir e.path))
                            × (is_package um ≡ true))
                          same
                          (metas_at-In pkgs paths (import_path_of module_path (dir e.path))
                            (FromDirs-names names version cd pkgs from) p
                            (elim w [
                              | inl r ↦ subst (Has paths) (sym r) v.root
                              | inr g ↦
                                  PackageAt-Has pkgs paths (import_path_of module_path (dir e.path))
                                    v.packages p g
                            ])))
                    | inr f ↦
                        inr (
                          subst (λ s. FailedAt s (join_path module_path (dir e.path))) states_same
                            f)
                  ]
          ]

  -- The unit of the package at a path, as it was loaded, or a state that tells of its failure.
  abbrev pub TellsOf : LazyModule → ContentDir → Fetched → Text → Type 0
  TellsOf lm cd fr p = UnitAt (IsLoaded tools lm cd p) fr.units ⊎ FailedAt fr.states p

  finish_result-TellsOf :
      (lm : LazyModule) (cd : ContentDir) (c : Collected) (p : Text)
      → Accounted (IsLoaded tools lm cd p) p c
      → TellsOf lm cd (finish_result lm c) p
  unfolding finish_result
  finish_result-TellsOf lm cd (us, ss, e) p h = h

  finish_result-error :
      (lm : LazyModule) (c : Collected) → (finish_result lm c).error ≡ none → c.2 ≡ none
  unfolding finish_result
  finish_result-error lm (us, ss, e) h = h

  no_error : (lm : LazyModule) → (fetch_result tools lm).error ≡ none → lm.error ≡ none
  unfolding fetch_result
  no_error lm h = ground arith

  failed_kept :
      (lm : LazyModule) (cd : ContentDir) (p : Text)
      → lm.error ≡ none
      → lm.content_dir ≡ some cd
      → FailedAt lm.failed_packages p
      → FailedAt (fetch_result tools lm).states p
  unfolding fetch_result finish_result
  failed_kept lm cd p q c h =
      rw (q, fetch_result)
        (rw (c, fetch_result)
          (collect_units-states tools lm cd ([], lm.failed_packages, none) lm.unit_metas p h))

  fetch_result-TellsOf :
      (lm : LazyModule) (cd : ContentDir) (p : Text)
      → lm.error ≡ none
      → lm.content_dir ≡ some cd
      → (fetch_result tools lm).error ≡ none
      → ((um : UnitMeta) × In um lm.unit_metas × (um.path ≡ p) × (is_package um ≡ true))
        ⊎ FailedAt lm.failed_packages p
      → TellsOf lm cd (fetch_result tools lm) p
  unfolding fetch_result collect_units finish_result
  fetch_result-TellsOf lm cd p q c h f =
      subst (λ fr. TellsOf lm cd fr p) (sym is_finish)
        (finish_result-TellsOf lm cd all p (elim f [
          | inl (um, i, e, b) ↦
              subst (λ q. Accounted (IsLoaded tools lm cd q) q all) e
                (collect_units-Accounted tools lm cd ([], lm.failed_packages, none) lm.unit_metas um
                  none_left b i)
          | inr k ↦
              collect_units-keeps tools lm cd (IsLoaded tools lm cd p)
                ([], lm.failed_packages, none) lm.unit_metas p (inr k)
        ]))
    where
      all : Collected
      all = collect_units tools lm cd ([], lm.failed_packages, none) lm.unit_metas

      is_finish :
          fetch_result tools lm
          ≡ finish_result lm
              (collect_units tools lm cd ([], lm.failed_packages, none) lm.unit_metas)
      is_finish = rw (q, fetch_result) (rw (c, fetch_result) refl)

      none_left : (collect_units tools lm cd ([], lm.failed_packages, none) lm.unit_metas).2 ≡ none
      none_left = finish_result-error lm all (subst (λ (fr : Fetched). fr.error ≡ none) is_finish h)

  -- When a module was fetched with no error, each Go file of its contents that is looked at, that is
  -- one in no directory that the go command ignores and in no vendor directory, has the unit of its
  -- directory's package in the result, with the name, the imports and the documentation that were
  -- loaded for it, or a state with a failure, for the import path or for the module's path joined with
  -- the directory. The module's path is not empty, the parser gives no empty package name, the
  -- goroutines of the second pass run for exactly the directories with files, the walk shows no path
  -- with a leading slash, and the import path is the module's or one below it: not "." in the standard
  -- library, longer elsewhere.
  pub fetch_result-Complete :
      (requested : Text) (mg : ModuleGetter) (lm : LazyModule) (cd : ContentDir)
      → 0 < length module_path
      → ((n b : Text) → tools.parse n b ≢ named [])
      → RunsAll tools.reorder
      → RunsOnly tools.reorder
      → IsFs cd
      → fetch_lazy_module tools module_path requested mg ≡ some lm
      → lm.content_dir ≡ some cd
      → (fetch_result tools lm).error ≡ none
      → (e : WalkEntry) → In e cd.walk
      → Considered tools.check_import_path module_path lm.version e
      → Within (import_path_of module_path (dir e.path))
      → TellsOf lm cd (fetch_result tools lm) (import_path_of module_path (dir e.path))
        ⊎ FailedAt (fetch_result tools lm).states (join_path module_path (dir e.path))
  fetch_result-Complete requested mg lm cd n names all only fs h c free e i k w =
      let q = no_error lm free in
      let (p, x) = fetch_lazy_module-Made tools module_path requested mg lm cd h q c in
      elim (extract_unit_metas-Found lm.version cd lm.unit_metas lm.failed_packages n names all only
        fs x e i k w) [
          | inl f ↦ inl (
              fetch_result-TellsOf lm cd (import_path_of module_path (dir e.path)) q c free (inl f))
          | inr f ↦ inr (failed_kept lm cd (join_path module_path (dir e.path)) q c f)
        ]
